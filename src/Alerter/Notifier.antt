-- ===== src/Alerter/Notifier.antt =====
-- alerter/notifier/: the channels, their configurations, and when a send has failed. Decoding the
-- configuration's JSON is an argument, and so are the answers of the network.
pub mod Texts
pub mod Mail
use Prim.Native.Char.{code}
use bangmod_monitor.Prelude.{
  ◌==◌, ◌||◌, ℕ, String, Bool, true, false, not, ◌&&◌, Option, none, some, List, [], ◌∷◌, leb,
  str_eq, if◌then◌else◌,
}
use bangmod_monitor.Prelude.Text.{concat, is_empty}

pub record SlackConfig : Type 0 where
  pub webhook_url : String

pub record DiscordConfig : Type 0 where
  pub webhook_url : String

pub record TelegramConfig : Type 0 where
  pub bot_token : String
  pub chat_id : String

pub record EmailConfig : Type 0 where
  pub smtp_host : String
  pub smtp_port : String
  pub username : String
  pub password : String
  pub from : String
  pub to : String

-- json.Unmarshal at each configuration; `none` is an error.
pub record Decoders : Type 0 where
  pub slack_config : String → Option SlackConfig
  pub discord_config : String → Option DiscordConfig
  pub telegram_config : String → Option TelegramConfig
  pub email_config : String → Option EmailConfig

pub data Notifier : Type 0 where
  slack : String → Notifier
  discord : String → Notifier
  telegram : String → String → Notifier
  email : EmailConfig → Notifier

abbrev slack_of : Option SlackConfig → Option Notifier
slack_of none = none
slack_of (some c) = some (slack c.webhook_url)

abbrev discord_of : Option DiscordConfig → Option Notifier
discord_of none = none
discord_of (some c) = some (discord c.webhook_url)

abbrev telegram_of : Option TelegramConfig → Option Notifier
telegram_of none = none
telegram_of (some c) = some (telegram c.bot_token c.chat_id)

abbrev email_of : Option EmailConfig → Option Notifier
email_of none = none
email_of (some c) = some (email c)

-- `notifier.New`; `none` is an error.
unfoldable pub new_notifier : Decoders → String → String → Option Notifier
new_notifier d channel config =
    if str_eq channel "slack"
    then slack_of (d.slack_config config)
    else if str_eq channel "discord"
    then discord_of (d.discord_config config)
    else if str_eq channel "telegram"
    then telegram_of (d.telegram_config config)
    else if str_eq channel "email"
    then email_of (d.email_config config)
    else none

abbrev has_colon : String → Bool
has_colon String.[] = false
has_colon (String.◌∷◌ c s) = (code c == b':') || has_colon s

-- net.JoinHostPort, which puts a host with a colon into brackets
abbrev pub join_host_port : String → String → String
join_host_port host port =
    if has_colon host
    then concat "[" (concat host (concat "]:" port))
    else concat host (concat ":" port)

-- The address that a send contacts: a URL, or the server of the mail.
address : Notifier → String
address (slack url) = url
address (discord url) = url
address (telegram token chat) = concat "https://api.telegram.org/bot" (concat token "/sendMessage")
address (email c) = join_host_port c.smtp_host (if is_empty c.smtp_port then "587" else c.smtp_port)

-- What the network answers: the status of a POST, or `none` on an error; and of the steps of an
-- SMTP session from the dial to the last write, whether each succeeds.
pub record Network : Type 0 where
  pub post : String → Option ℕ
  pub smtp : String → List Bool

abbrev pub is_delivered : Option ℕ → Bool
is_delivered none = false
is_delivered (some code) = not (leb 300 code)

abbrev pub all_succeed : List Bool → Bool
all_succeed [] = true
all_succeed (b ∷ bs) = b && all_succeed bs

-- Whether `Send` returns nil.
unfoldable pub delivers : Network → Notifier → Bool
unfolding address
delivers net (slack url) = is_delivered (net.post (address (slack url)))
delivers net (discord url) = is_delivered (net.post (address (discord url)))
delivers net (telegram token chat) = is_delivered (net.post (address (telegram token chat)))
delivers net (email c) = all_succeed (net.smtp (address (email c)))
