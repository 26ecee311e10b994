-- ===== src/Errors.antt =====
-- exceptions.py, and the outcomes of calls that may raise.
use rag_knowledge_platform_f.Prelude.{ℕ, List, [], ◌∷◌, ◌++◌, ◌≡◌, ◌⊎◌, refl, inl, inr}
use rag_knowledge_platform_f.Text.{Text, codes}
use rag_knowledge_platform_f.Text.Decimal.{decimal}

-- The subclasses of `RagPlatformError` that are raised, with what their instances carry: the detail
-- where the raising code chooses it, or the arguments that it is made of.
pub data RagError : Type 0 where
  not_found : Text → RagError
  configuration : Text → RagError
  provider_not_configured : Text → RagError
  unsupported_document_type : Text → RagError
  parse_error : Text → RagError
  duplicate_document : RagError
  invalid_query : RagError
  authentication : Text → RagError
  invalid_grant : Text → RagError
  file_too_large : Text → RagError
  storage_quota_exceeded : (used_bytes limit_bytes incoming_bytes : ℕ) → RagError
  queue_unavailable : RagError
  rate_limited : (retry_after_seconds : ℕ) → RagError

-- Every exception: those, Python's own, and those of code outside the repository.
pub data Exc : Type 0 where
  rag : RagError → Exc
  value_error index_error key_error : Exc
  foreign : ℕ → Exc

-- The outcome of a call that may raise.
pub data Result {ℓ} (A : Type ℓ) : Type ℓ where
  ok : A → Result A
  err : Exc → Result A

pub Result-cases {ℓ} :
    {A : Type ℓ} (r : Result A) → ((e : Exc) × (r ≡ err e)) ⊎ ((a : A) × (r ≡ ok a))
Result-cases (err e) = inl (e, refl)
Result-cases (ok a) = inr (a, refl)

infixl 5 ◌>>=◌
abbrev pub ◌>>=◌ {ℓ κ} : {A : Type ℓ} {B : Type κ} → Result A → (A → Result B) → Result B
ok a >>= f = f a
err e >>= f = err e

unfoldable pub status_code : RagError → ℕ
status_code (not_found _) = 404
status_code (configuration _) = 500
status_code (provider_not_configured _) = 500
status_code (unsupported_document_type _) = 415
status_code (parse_error _) = 422
status_code duplicate_document = 409
status_code invalid_query = 422
status_code (authentication _) = 401
status_code (invalid_grant _) = 400
status_code (file_too_large _) = 413
status_code (storage_quota_exceeded _ _ _) = 413
status_code queue_unavailable = 503
status_code (rate_limited _) = 429

unfoldable pub detail : RagError → Text
unfolding decimal
detail (not_found d) = d
detail (configuration d) = d
detail (provider_not_configured d) = d
detail (unsupported_document_type d) = d
detail (parse_error d) = d
detail duplicate_document = codes "A document with identical content already exists for this tenant"
detail invalid_query = codes "Query must be non-empty"
detail (authentication d) = d
detail (invalid_grant d) = d
detail (file_too_large d) = d
detail (storage_quota_exceeded used limit incoming) =
    codes "Tenant storage quota exceeded: "
    ++ (decimal used
        ++ (codes " bytes used + "
            ++ (decimal incoming
                ++ (codes " incoming > " ++ (decimal limit ++ codes " byte limit")))))
detail queue_unavailable = codes "Ingestion queue is unavailable; try again shortly"
detail (rate_limited _) = codes "Rate limit exceeded"

unfoldable pub headers : RagError → List (Text × Text)
unfolding decimal
headers (rate_limited seconds) = (codes "Retry-After", decimal seconds) ∷ []
headers _ = []
