-- ===== src/Alerter/Notifier/Texts.antt =====
-- The texts that the notifiers send: the payloads of the three services, whose JSON is the
-- library's, and the message of the mail.
use bangmod_monitor.Prelude.{ℕ, String, List, [], ◌∷◌}
use bangmod_monitor.Prelude.Text.{concat, join}
use bangmod_monitor.Alerter.Notifier.{EmailConfig}

pub record Block : Type 0 where
  pub kind : String
  pub text_kind : String
  pub text : String

-- Slack.Send
unfoldable slack_blocks : String → String → List Block
slack_blocks subject message =
    (record { kind = "header"; text_kind = "plain_text"; text = subject })
    ∷ (record { kind = "section"; text_kind = "mrkdwn"; text = message })
    ∷ []

pub record Embed : Type 0 where
  pub title : String
  pub description : String
  pub color : ℕ

-- Discord.Send
unfoldable discord_embeds : String → String → List Embed
discord_embeds subject message =
    (record { title = subject; description = message; color = 0xFF4444 }) ∷ []

pub record TelegramPayload : Type 0 where
  pub chat_id : String
  pub text : String
  pub parse_mode : String

-- Telegram.Send
unfoldable telegram_payload : String → String → String → TelegramPayload
telegram_payload chat_id subject message = record {
  chat_id = chat_id;
  text = concat "*" (concat subject (concat "*\n\n" message));
  parse_mode = "Markdown";
}

abbrev pub crlf : String
crlf = "\r\n"

-- The message of Email.Send; the date is the time in RFC 1123.
unfoldable pub mail : EmailConfig → String → String → String → String
mail c date subject message = join crlf (
    concat "From: " c.from
    ∷ concat "To: " c.to
    ∷ concat "Subject: [BangmodMonitor] " subject
    ∷ concat "Date: " date
    ∷ "MIME-Version: 1.0"
    ∷ "Content-Type: text/plain; charset=utf-8"
    ∷ ""
    ∷ message
    ∷ [])
