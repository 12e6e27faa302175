-- ===== src/Tests/Web.antt =====
-- handlers/: the handlers' theorems, at concrete requests to a small MemoryStore.
use tiny_url.Prelude.{
  Text, Bool-cases, inl, inr, sym, ◌∙◌, not, is_empty, arith, true, false, none, some, [], ◌∷◌, ◌≡◌,
  refl, ◌↔◌, ◌⊎◌, codes, if◌then◌else◌, same, text_eq, is_empty,
}
use tiny_url.Prelude.Int.{ℤ, same_int, same_int_iff, pos, int_eq, ◌≤ℤ◌}
use tiny_url.Prelude.Table.{lookup}
use tiny_url.Prelude.Strings.{strip_prefix, trim_space, to_lower}
use tiny_url.Models.{UrlMapping}
use tiny_url.Store.{ok}
use tiny_url.Store.Memory.Urls.{get, set, exists}
use tiny_url.Store.Memory.Contract.{memory}
use tiny_url.Services.DenyList.{contains}
use tiny_url.Services.Destinations.{pick_destination}
use tiny_url.Services.Validation.{
  validate_destination_url, validate_host_at_runtime, categorize_ip, to4, category4, normalize_tags,
  validate_destinations, check_destinations, validate_custom_code,
}
use tiny_url.Handlers.{plain, token_issued}
use tiny_url.Handlers.Auth.{extract_bearer, authorize_owner, authorize_access}
use tiny_url.Handlers.Owner.{delete_handler, rotate_handler}
use tiny_url.Handlers.Redirect.{redirect_handler, serve_target, target_of, is_disabled}
use tiny_url.Handlers.Checks.{IsOpen, IsUnlocked}
use tiny_url.Handlers.Clicked.{IsServed, redirect_handler_passed}
use tiny_url.Handlers.ClickCap.{redirect_handler_capped}
use tiny_url.Models.{ApiKey}
use tiny_url.Store.Memory.State.{MemoryStore}
use tiny_url.Store.Memory.KeyLookup.{IsKeyring}
use tiny_url.Handlers.Access.{HasCredential, authorize_access_iff}
use tiny_url.Handlers.Revoked.{rotate_handler_lem, delete_handler_lem}
use tiny_url.Handlers.Shorten.{
  bad, and_then, check_custom_code, check_url, check_expiration, check_tags, check_max_clicks,
  check_password, check_destinations_of, check_webhook, choose_code, generate_owner_token,
}
use tiny_url.Handlers.Shorten.One.{shorten_one, prepare, response_of, deadline, mapping_of}
use tiny_url.Handlers.Followed.{redirect_handler-shorten_one}
use tiny_url.Handlers.Redirect.{is_disabled}
use tiny_url.Handlers.{found}
use tiny_url.Handlers.Shorten.Created.{shorten_one-rejected, shorten_one-created}
use tiny_url.Tests.Data.{
  abc, target, hashed, unsorted, mapping, small_store, owned, request, noon, world, config, crypto,
  network, handler, draws, order, answer,
}

redirect_handler_passed_example :
    (m : UrlMapping) × (get (noon 0) abc small_store ≡ ok m)
    × IsOpen m
    × ((m.password_hash ≡ []) ⊎ IsUnlocked world request m)
    × IsServed world (memory unsorted) noon config m none target
unfolding redirect_handler serve_target target_of pick_destination is_disabled contains get lookup
    same
redirect_handler_passed_example =
    redirect_handler_passed world (memory unsorted) noon config request small_store none target refl

empty_handed : {k : ApiKey} → none ≡ some k → ⊥
empty_handed h = cc

-- One hash for every token, a key with that hash and a mapping that is bound to the key
abbrev constant : Text → Text
constant token = 7 ∷ []

abbrev seventh : ApiKey
seventh = record {
  id = pos 7;
  token_hash = 7 ∷ [];
  label = [];
  created_at = pos 1;
  last_used_at = none;
}

abbrev keyed : MemoryStore
keyed = record small_store { api_keys = (pos 7, seventh) ∷ [] }

one_id : (i : ℤ) (k : ApiKey) → lookup i keyed.api_keys ≡ some k → pos 7 ≡ i
unfolding lookup
one_id i k h = elim (Bool-cases (same_int (pos 7) i)) [
  | inl at ↦ (same_int_iff (pos 7) i).0 at
  | inr off ↦ absurd (empty_handed (rw off at h))
]

keyed-IsKeyring : IsKeyring keyed.api_keys
unfolding lookup
keyed-IsKeyring = record {
  once = (refl, tt);
  filed = (refl, tt);
  bytes = ((omega arith, tt), tt);
  distinct = λ i j k l p q e. sym (one_id i k p) ∙ one_id j l q;
}

authorize_access_iff_example :
    let bound = record mapping { api_key_id = pos 7 } in
    ((authorize_access constant (memory unsorted) (pos 9) owned bound keyed).0 ≡ true)
    ↔ HasCredential constant unsorted owned bound keyed
authorize_access_iff_example =
    authorize_access_iff constant unsorted (pos 9) owned (record mapping { api_key_id = pos 7 })
      keyed (λ token. (omega arith, tt)) keyed-IsKeyring

rotate_handler_lem_example :
    let (response, after) =
      rotate_handler hashed (memory unsorted) noon (some (codes "fresh")) request small_store in
    (response ≡ token_issued abc (codes "fresh"))
    × ((n : UrlMapping) × (lookup abc after.urls ≡ some n)
        × ((authorize_owner hashed owned n.owner_token_hash ≡ true)
            ↔ (extract_bearer hashed owned ≡ some (hashed (codes "fresh")))))
unfolding get lookup same authorize_owner extract_bearer strip_prefix trim_space
rotate_handler_lem_example =
    rotate_handler_lem hashed unsorted noon (codes "fresh") request owned mapping small_store refl
      refl refl refl

delete_handler_lem_example :
    let allowed =
      (authorize_access hashed (memory unsorted) (noon 1) owned mapping small_store).0 in
    let (response, after) = delete_handler hashed (memory unsorted) noon request small_store in
    (response
      ≡ (if allowed then plain 204 [] else plain 401 (codes "missing or invalid admin token")))
    × (lookup abc after.urls ≡ (
        if allowed
        then (if same abc abc then none else lookup abc small_store.urls)
        else lookup abc small_store.urls))
    × (lookup abc after.events ≡ (
        if allowed
        then (if same abc abc then none else lookup abc small_store.events)
        else lookup abc small_store.events))
unfolding get lookup same
delete_handler_lem_example =
    delete_handler_lem hashed unsorted noon request mapping abc small_store refl refl

shorten_one-created_example :
    let after =
      (shorten_one crypto network handler draws
        (memory unsorted)
        noon
        order
        (pos 0)
        []
        small_store).2 in
    (exists (codes "xyz") small_store ≡ false)
    × (validate_destination_url network target none ≡ none)
    × ((m : UrlMapping) × (lookup (codes "xyz") after.urls ≡ some m)
        × (m.original_url ≡ target)
        × (m.click_count ≡ pos 0)
        × (m.api_key_id ≡ pos 0)
        × (m.expires_at ≡ none)
        × (not (is_empty m.password_hash) ≡ false)
        × (m.destinations ≡ [])
        × (m.owner_token_hash ≡ hashed (5 ∷ 6 ∷ [])))
unfolding shorten_one prepare and_then check_custom_code check_url check_expiration check_tags
    check_max_clicks check_password check_destinations_of check_webhook choose_code
    generate_owner_token response_of deadline mapping_of normalize_tags validate_destinations
    check_destinations validate_custom_code validate_destination_url validate_host_at_runtime
    categorize_ip to4 category4 contains to_lower strip_prefix exists set lookup same
shorten_one-created_example =
    shorten_one-created crypto network handler draws unsorted noon order (pos 0) [] small_store
      answer refl

shorten_one-rejected_example :
    let (item, queued, after) =
      shorten_one crypto network handler draws
        (memory unsorted)
        noon
        (record order { custom_code = abc })
        (pos 0)
        []
        small_store in
    (queued ≡ []) × (after ≡ small_store)
unfolding shorten_one prepare and_then check_custom_code validate_custom_code to_lower exists lookup
    same
shorten_one-rejected_example =
    shorten_one-rejected crypto network handler draws unsorted noon
      (record order { custom_code = abc }) (pos 0) [] small_store
      (bad 409 (codes "code_conflict") (codes "custom code is already in use")) refl

redirect_handler_capped_example :
    let after =
      (redirect_handler world (memory unsorted) noon config request (small_store, none)).2 in
    (n : UrlMapping) × (lookup abc after.urls ≡ some n)
    × (n.max_clicks ≡ pos 2)
    × (n.click_count ≤ℤ n.max_clicks)
unfolding lookup same
redirect_handler_capped_example =
    redirect_handler_capped world unsorted noon config request abc mapping small_store none refl
      (omega arith) (omega arith) (omega arith) (omega arith)

redirect_handler-shorten_one_example :
    let after =
      (shorten_one crypto network handler draws
        (memory unsorted)
        noon
        order
        (pos 0)
        []
        small_store).2 in
    (redirect_handler world
      (memory unsorted)
      noon
      config
      (record request { code = codes "xyz" })
      (after, none)).0
    ≡ found target
unfolding shorten_one prepare and_then check_custom_code check_url check_expiration check_tags
    check_max_clicks check_password check_destinations_of check_webhook choose_code
    generate_owner_token response_of deadline mapping_of normalize_tags validate_destinations
    check_destinations validate_custom_code validate_destination_url validate_host_at_runtime
    categorize_ip to4 category4 contains to_lower strip_prefix exists set lookup same is_disabled
redirect_handler-shorten_one_example =
    redirect_handler-shorten_one world crypto network handler draws unsorted noon noon order (pos 0)
      [] small_store answer config (record request { code = codes "xyz" }) none refl refl refl refl
      refl refl refl
