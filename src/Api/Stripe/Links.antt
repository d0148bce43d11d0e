-- ===== src/Api/Stripe/Links.antt =====
-- What the dashboard reads of the address to which Stripe sends a customer back.
use Prim.Native.Char.{code}
use bangmod_monitor.Prelude.{
  String, true, false, ◌≡◌, refl, ap, ◌∙◌, Option, none, some, List, [], ◌∷◌, arith, str_eq, ◌==◌,
  if◌then◌else◌,
}
use bangmod_monitor.Prelude.Text.{Cut, whole, parts, concat, concat_assoc, split, split_n}
use bangmod_monitor.Api.Stripe.{StripeService, CheckoutParams, checkout_session}

-- The query of a URL: what follows its first question mark
abbrev query_of_cut : Cut → String
query_of_cut (whole s) = ""
query_of_cut (parts s query) = query

abbrev value_of_cut : String → Cut → Option String
value_of_cut name (whole s) = if str_eq s name then some "" else none
value_of_cut name (parts k v) = if str_eq k name then some v else none

abbrev first_value : String → List String → Option String
first_value name [] = none
first_value name (p ∷ ps) =
    let rest = first_value name ps in
    elim (value_of_cut name (split_n b'=' p)) [ some v ↦ some v | none ↦ rest ]

-- A parameter of a URL, its escapes apart
parameter : String → String → Option String
parameter name url = first_value name (split b'&' (query_of_cut (split_n b'?' url)))

-- no question mark
abbrev NoQuery : String → Type 0
NoQuery String.[] = Unit
NoQuery (String.◌∷◌ c s) = ((code c == b'?') ≡ false) × NoQuery s

billing_query :
    (base query : String)
    → NoQuery base
    → split_n b'?' (concat base (concat "/billing?" query)) ≡ parts (concat base "/billing") query
billing_query String.[] query h = refl
billing_query (String.◌∷◌ c s) query (p, h) = ground (arith, billing_query s query h)

parameter-billing :
    (name base query : String)
    → NoQuery base
    → parameter name (concat base (concat "/billing?" query)) ≡ first_value name (split b'&' query)
unfolding parameter
parameter-billing name base query h =
    ap (λ c. first_value name (split b'&' (query_of_cut c))) (billing_query base query h)

-- Where Stripe is enabled and the address of the dashboard has no query, the customer of a paid
-- checkout is sent back to a page whose parameter `success` is not "1" but has the text of the
-- session's parameter behind it, and which has no parameter `session_id`; the customer of one that
-- is canceled, to a page whose parameter `canceled` is "1".
checkout_links :
    (svc : StripeService) (session : CheckoutParams → Option String) (base customer price : String)
    → svc.enabled ≡ true
    → NoQuery base
    → (p : CheckoutParams) × (checkout_session svc session base customer price ≡ session p)
      × (parameter "success" p.success_url ≡ some "1?session_id={CHECKOUT_SESSION_ID}")
      × (parameter "session_id" p.success_url ≡ none)
      × (parameter "canceled" p.cancel_url ≡ some "1")
unfolding checkout_session
checkout_links svc session base customer price on plain =
    let back = concat_assoc base "/billing?success=1" "?session_id={CHECKOUT_SESSION_ID}" in
    let query : String = "success=1?session_id={CHECKOUT_SESSION_ID}" in
    (
      record {
        customer = customer;
        mode = "subscription";
        success_url = concat (concat base "/billing?success=1") "?session_id={CHECKOUT_SESSION_ID}";
        cancel_url = concat base "/billing?canceled=1";
        price = price;
        quantity = 1;
        price_id = price;
      },
      rw on refl,
      ap (parameter "success") back ∙ parameter-billing "success" base query plain,
      ap (parameter "session_id") back ∙ parameter-billing "session_id" base query plain,
      parameter-billing "canceled" base "canceled=1" plain,
    )
