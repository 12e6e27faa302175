-- ===== src/Handlers/Owner.antt =====
-- handlers/delete.go and handlers/rotate.go: the handlers behind the owner's credentials.
use tiny_url.Prelude.{Text, Option, none, some, [], is_empty, codes, if◌then◌else◌}
use tiny_url.Prelude.Int.{pos}
use tiny_url.Models.{UrlMapping, AuditEvent}
use tiny_url.Store.{
  Store, Result, ok, err, not_found, expired, code_conflict, backend, panicked, Done,
}
use tiny_url.Handlers.{Clock, Request, Response, plain, token_issued, refusal}
use tiny_url.Handlers.Auth.{authorize_owner, authorize_access, resolve_actor, log_audit_best_effort}

-- The audit record of a handler; the store gives it its number and its time.
abbrev pub audit_of : Text → Text → Text → Text → Text → AuditEvent
audit_of actor_kind actor_id action code request_id = record {
  id = pos 0;
  at = pos 0;
  actor_kind = actor_kind;
  actor_id = actor_id;
  action = action;
  target_kind = codes "url";
  target_id = code;
  metadata = [];
  request_id = request_id;
}

module _ (sha256 : Text → Text) (S : Store) where
  -- DeleteHandler.ServeHTTP from the Delete on
  unfoldable pub delete_outcome :
      Clock → Request → UrlMapping → Result Done × S.State → Response × S.State
  delete_outcome clock r m (err not_found, s) = (plain 204 [], s)
  delete_outcome clock r m (err expired, s) = (plain 500 (codes "Internal server error"), s)
  delete_outcome clock r m (err code_conflict, s) = (plain 500 (codes "Internal server error"), s)
  delete_outcome clock r m (err backend, s) = (plain 500 (codes "Internal server error"), s)
  delete_outcome clock r m (err panicked, s) = (plain 500 (codes "Internal server error"), s)
  delete_outcome clock r m (ok _, s) =
      let (actor, after) = resolve_actor sha256 S (clock 2) r.authorization (some m) s in
      (
        plain 204 [],
        log_audit_best_effort S (clock 3)
            (audit_of actor.0 actor.1 (codes "url.delete") r.code r.request_id) after,
      )

  unfoldable pub delete_handler : Clock → Request → S.State → Response × S.State
  unfolding delete_outcome
  delete_handler clock r s =
      if is_empty r.code
      then (plain 400 (codes "Short code is required"), s)
      else elim (S.get (clock 0) r.code s) [
        | err e ↦ (refusal e, s)
        | ok m ↦
            let (allowed, after) = authorize_access sha256 S (clock 1) r.authorization m s in
            if allowed
            then delete_outcome clock r m (S.delete r.code after)
            else (plain 401 (codes "missing or invalid admin token"), after)
      ]

  -- RotateHandler.ServeHTTP from the RotateToken on
  unfoldable pub rotate_outcome :
      Clock → Request → Text → Result Done × S.State → Response × S.State
  rotate_outcome clock r token (err not_found, s) = (plain 404 (codes "404 page not found"), s)
  rotate_outcome clock r token (err expired, s) = (plain 500 (codes "Internal server error"), s)
  rotate_outcome clock r token (err code_conflict, s) =
      (plain 500 (codes "Internal server error"), s)
  rotate_outcome clock r token (err backend, s) = (plain 500 (codes "Internal server error"), s)
  rotate_outcome clock r token (err panicked, s) = (plain 500 (codes "Internal server error"), s)
  rotate_outcome clock r token (ok _, s) = (
    token_issued r.code token,
    log_audit_best_effort S (clock 1)
        (audit_of (codes "admin_token") r.code (codes "url.token_rotated") r.code r.request_id) s,
  )

  -- `generated` is what generateOwnerToken draws: a token, or `none` if the read of random bytes
  -- fails.
  unfoldable pub rotate_handler : Clock → Option Text → Request → S.State → Response × S.State
  unfolding rotate_outcome
  rotate_handler clock generated r s =
      if is_empty r.code
      then (plain 400 (codes "Short code is required"), s)
      else elim (S.get (clock 0) r.code s) [
        | err e ↦ (refusal e, s)
        | ok m ↦
            if authorize_owner sha256 r.authorization m.owner_token_hash
            then elim generated [
              | none ↦ (plain 500 (codes "failed to generate token"), s)
              | some token ↦ rotate_outcome clock r token (S.rotate_token r.code (sha256 token) s)
            ]
            else (plain 401 (codes "missing or invalid admin token"), s)
      ]
