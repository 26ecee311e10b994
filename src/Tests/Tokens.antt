-- ===== src/Tests/Tokens.antt =====
-- Tokens that carry their payload and their secret in the clear, and UUIDs of one character.
use rag_knowledge_platform_f.Prelude.{
  ℕ, zero, suc, ◌≤◌, ◌&&◌, Option, none, some, [], ◌∷◌, ◌++◌, ◌≡◌, refl, length, take, drop, ltb,
  lt→ltb, arith, if◌then◌else◌, false,
}
use rag_knowledge_platform_f.Text.{Text, text_eq, text_eq_refl}
use rag_knowledge_platform_f.Security.{Claim, Payload, Crypto}
use rag_knowledge_platform_f.Security.Tokens.{IsSound}

-- A text that is written before others, with its length.
abbrev field : Text → Text → Text
field xs rest = length xs ∷ (xs ++ rest)

abbrev read_field : Text → Option (Text × Text)
read_field [] = none
read_field (n ∷ t) = some (take n t, drop n t)

take_append : (xs rest : Text) → take (length xs) (xs ++ rest) ≡ xs
take_append [] rest = refl
take_append (x ∷ xs) rest = rw (take_append xs rest) refl

drop_append : (xs rest : Text) → drop (length xs) (xs ++ rest) ≡ rest
drop_append [] rest = refl
drop_append (x ∷ xs) rest = drop_append xs rest

abbrev claim_field : Claim → Text → Text
claim_field (Claim.text t) rest = 1 ∷ field t rest
claim_field Claim.other rest = 0 ∷ rest

abbrev text_claim : Option (Text × Text) → Option (Claim × Text)
text_claim none = none
text_claim (some (t, rest)) = some (Claim.text t, rest)

abbrev read_claim : Text → Option (Claim × Text)
read_claim [] = none
read_claim (zero ∷ t) = some (Claim.other, t)
read_claim (suc n ∷ t) = text_claim (read_field t)

read-claim : (c : Claim) (rest : Text) → read_claim (claim_field c rest) ≡ some (c, rest)
read-claim (Claim.text t) rest = rw (take_append t rest, drop_append t rest) refl
read-claim Claim.other rest = refl

abbrev token_of : Payload → Text → Text
token_of p secret = p.iat ∷ p.exp ∷ claim_field p.sub (claim_field p.tid (field p.iss secret))

-- The payload, if the issuer and the secret are as they should be and it has not expired.
abbrev checked :
    (iat exp : ℕ) (secret issuer : Text) (now : ℕ)
    → Claim
    → Claim
    → Option (Text × Text)
    → Option Payload
checked iat exp secret issuer now sub tid none = none
checked iat exp secret issuer now sub tid (some (iss, signed)) =
    if text_eq iss issuer && (text_eq signed secret && ltb now exp)
    then some (record { iss = iss; sub = sub; tid = tid; iat = iat; exp = exp })
    else none

abbrev after_tid :
    (iat exp : ℕ) (secret issuer : Text) (now : ℕ) → Claim → Option (Claim × Text) → Option Payload
after_tid iat exp secret issuer now sub none = none
after_tid iat exp secret issuer now sub (some (tid, rest)) =
    checked iat exp secret issuer now sub tid (read_field rest)

abbrev after_sub :
    (iat exp : ℕ) (secret issuer : Text) (now : ℕ) → Option (Claim × Text) → Option Payload
after_sub iat exp secret issuer now none = none
after_sub iat exp secret issuer now (some (sub, rest)) =
    after_tid iat exp secret issuer now sub (read_claim rest)

abbrev payload_in : Text → (secret issuer : Text) → (now : ℕ) → Option Payload
payload_in [] secret issuer now = none
payload_in (iat ∷ []) secret issuer now = none
payload_in (iat ∷ exp ∷ t) secret issuer now = after_sub iat exp secret issuer now (read_claim t)

payload_in_lem :
    (p : Payload) (secret : Text) (now : ℕ)
    → payload_in (token_of p secret) secret p.iss now ≡ (if ltb now p.exp then some p else none)
payload_in_lem p secret now =
    rw
      (
        read-claim p.sub (claim_field p.tid (field p.iss secret)),
        read-claim p.tid (field p.iss secret),
        take_append p.iss secret,
        drop_append p.iss secret,
        text_eq_refl p.iss,
        text_eq_refl secret,
      )
      refl

over_ltb : (a b : ℕ) → b ≤ a → ltb a b ≡ false
over_ltb a b h = ground arith

abbrev id_in : Text → Option ℕ
id_in [] = none
id_in (id ∷ t) = some id

abbrev pub crypto : Crypto
crypto = record {
  encode = token_of;
  decode = payload_in;
  sha256_hex = λ t. 35 ∷ t;
  uuid_str = λ id. id ∷ [];
  uuid_of = id_in;
}

pub crypto-IsSound : IsSound crypto
crypto-IsSound = record {
  decodes =
      λ p secret now issued live. rw (payload_in_lem p secret now, lt→ltb now p.exp live) refl;
  expires = λ p secret now over. rw (payload_in_lem p secret now, over_ltb now p.exp over) refl;
  uuids = λ id. refl;
}
