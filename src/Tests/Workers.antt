-- ===== src/Tests/Workers.antt =====
-- Deliveries of webhooks, fetches of previews and clients behind a proxy, at concrete inputs.
use tiny_url.Prelude.{
  ℕ, List, Text, none, some, [], ◌∷◌, ◌++◌, ◌≡◌, ◌⊎◌, refl, arith, true, text_eq, codes, same, ltb,
  if◌then◌else◌,
}
use tiny_url.Prelude.Int.{pos}
use tiny_url.Prelude.Strings.{trim_space}
use tiny_url.Prelude.Table.{lookup, assign}
use tiny_url.Models.{UrlMapping}
use tiny_url.Store.Memory.Contract.{memory}
use tiny_url.Services.Webhooks.{
  WebhookEvent, Posted, status, new_webhook_dispatcher, deliver, signature,
  verify_webhook_signature,
}
use tiny_url.Services.Webhooks.Deliveries.{
  IsDelivery, deliver-IsDelivery, verify_webhook_signature-signature,
}
use tiny_url.Services.Unfurl.{
  UnfurlJob, Token, text, start_tag, Fetched, answer, new_unfurler, fetch, PreviewParsed,
}
use tiny_url.Services.Unfurl.Previews.{Fits, IsPreviewOf, IsPreviewed, fetch-IsPreviewed}
use tiny_url.Middleware.ClientIp.{client_ip, client_ip_appended}
use tiny_url.Tests.Data.{abc, target, network, small_store, unsorted}

-- A receiver that is down for the first attempt
abbrev flaky : ℕ → Posted
flaky n = if ltb n 1 then status 503 else status 204

abbrev event : WebhookEvent
event = record { code = abc; url = target; secret = codes "key"; payload = codes "{}" }

deliver-IsDelivery_example :
    let d = new_webhook_dispatcher (pos 2) in
    let (after, made) = deliver network flaky event d in IsDelivery network flaky event d after made
deliver-IsDelivery_example = deliver-IsDelivery network flaky event (new_webhook_dispatcher (pos 2))

-- A code that is not HMAC
abbrev tagged : Text → Text → Text
tagged secret body = 7 ∷ []

verify_webhook_signature-signature_example :
    verify_webhook_signature tagged (codes "key") (codes "{}") (signature tagged event)
    ≡ same (tagged (codes "key") (codes "{}")) (tagged (codes "key") (codes "{}"))
verify_webhook_signature-signature_example =
    verify_webhook_signature-signature tagged event (codes "key") (codes "{}") (omega arith, tt)
      (λ h. cc)

abbrev page : Text → List Token
page body = start_tag (codes "title") [] ∷ text body ∷ []

abbrev site : Text → Fetched
site url = answer 200 (codes "text/html; charset=utf-8") (codes " Hello ")

abbrev job : UnfurlJob
job = record { code = abc; url = target }

fetch-IsPreviewed_example :
    let t =
      (fetch network page
        (memory unsorted)
        (pos 9)
        site
        job
        (new_unfurler (pos 1))
        small_store).1 in
    ((lookup abc small_store.urls ≡ none) × (t ≡ small_store))
    ⊎ ((m : UrlMapping) × (n : UrlMapping) × (p : PreviewParsed) × (lookup abc small_store.urls
          ≡ some m)
        × (t ≡ record small_store { urls = assign abc n small_store.urls })
        × IsPreviewed network page (pos 9) p m n
        × Fits p
        × IsPreviewOf network page site target p)
fetch-IsPreviewed_example =
    fetch-IsPreviewed network page unsorted (pos 9) site job (new_unfurler (pos 1)) small_store

client_ip_appended_example :
    client_ip
      (λ ip. some ip)
      (λ a. none)
      true
      (codes "6.6.6.6" ++ 44 ∷ codes " 9.9.9.9")
      (codes "10.0.0.1:80")
    ≡ trim_space (codes " 9.9.9.9")
unfolding trim_space
client_ip_appended_example =
    client_ip_appended (λ ip. some ip) (λ a. none) (codes "6.6.6.6") (codes " 9.9.9.9")
      (codes "10.0.0.1:80") (codes "9.9.9.9")
      (refl, (refl, (refl, (refl, (refl, (refl, (refl, (refl, tt)))))))) refl refl
