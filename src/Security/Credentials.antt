-- ===== src/Security/Credentials.antt =====
-- The rows of credentials under the commands and the updates of a token's issue.
use rag_knowledge_platform_f.Prelude.{
  ℕ, Bool, false, ◌||◌, Option, none, some, List, [], ◌∷◌, ◌++◌, ◌≡◌, refl, sym, ap, ◌∙◌, inl, inr,
  ◌==◌, eqb→eq, eqb_refl, if◌then◌else◌, Bool-cases, arith,
}
use rag_knowledge_platform_f.Text.{Text, text_eq, text_eq_refl}
use rag_knowledge_platform_f.Security.{
  ApiCredential, get_credential, find_client, update_credential, any_clash,
}

abbrev pub map_some : {A B : Type 0} → (A → B) → Option A → Option B
map_some f none = none
map_some f (some a) = some (f a)

some_injective : (d c : ApiCredential) → some d ≡ some c → d ≡ c
some_injective d c h = ap (λ o. elim o [ none ↦ d | some x ↦ x ]) h

-- What an update leaves alone.
pub record KeepsKeys (f : ApiCredential → ApiCredential) : Type 0 where
  pub id : (c : ApiCredential) → (f c).id ≡ c.id
  pub client_id : (c : ApiCredential) → (f c).client_id ≡ c.client_id
  pub tenant_id : (c : ApiCredential) → (f c).tenant_id ≡ c.tenant_id

-- The row as an update of the row `j` leaves it.
abbrev pub updated : ℕ → (ApiCredential → ApiCredential) → ApiCredential → ApiCredential
updated j f c = if c.id == j then f c else c

module _ (f : ApiCredential → ApiCredential) (keys : KeepsKeys f) where
  updated_id : (j : ℕ) (c : ApiCredential) → (updated j f c).id ≡ c.id
  updated_id j c = elim (Bool-cases (c.id == j)) [
    | inl own ↦ rw own (keys.id c)
    | inr other ↦ rw other refl
  ]

  updated_client_id : (j : ℕ) (c : ApiCredential) → (updated j f c).client_id ≡ c.client_id
  updated_client_id j c = elim (Bool-cases (c.id == j)) [
    | inl own ↦ rw own (keys.client_id c)
    | inr other ↦ rw other refl
  ]

  pub get_credential-update :
      (id j : ℕ) (cs : List ApiCredential)
      → get_credential id (update_credential j f cs) ≡ map_some (updated j f) (get_credential id cs)
  unfolding get_credential update_credential
  get_credential-update id j [] = refl
  get_credential-update id j (c ∷ cs) = elim (Bool-cases (c.id == id)) [
    | inl own ↦ rw (updated_id j c, own) refl
    | inr other ↦ rw (updated_id j c, other) (get_credential-update id j cs)
  ]

  pub find_client-update :
      (client : Text) (j : ℕ) (cs : List ApiCredential)
      → find_client client (update_credential j f cs)
        ≡ map_some (updated j f) (find_client client cs)
  unfolding find_client update_credential
  find_client-update client j [] = refl
  find_client-update client j (c ∷ cs) = elim (Bool-cases (text_eq c.client_id client)) [
    | inl own ↦ rw (updated_client_id j c, own) refl
    | inr other ↦ rw (updated_client_id j c, other) (find_client-update client j cs)
  ]

pub get_credential-append :
    (id : ℕ) (cs : List ApiCredential) (row c : ApiCredential)
    → get_credential id cs ≡ some c
    → get_credential id (cs ++ row ∷ []) ≡ some c
unfolding get_credential
get_credential-append id [] row c h = absurd (ground arith)
get_credential-append id (d ∷ cs) row c h = elim (Bool-cases (d.id == id)) [
  | inl own ↦ rw own (rw own at h)
  | inr other ↦ rw other (get_credential-append id cs row c (rw other at h))
]

pub find_client-append :
    (client : Text) (cs : List ApiCredential) (row c : ApiCredential)
    → find_client client cs ≡ some c
    → find_client client (cs ++ row ∷ []) ≡ some c
unfolding find_client
find_client-append client [] row c h = absurd (ground arith)
find_client-append client (d ∷ cs) row c h = elim (Bool-cases (text_eq d.client_id client)) [
  | inl own ↦ rw own (rw own at h)
  | inr other ↦ rw other (find_client-append client cs row c (rw other at h))
]

or_false : (a b : Bool) → (a || b) ≡ false → (a ≡ false) × (b ≡ false)
or_false a b h = (ground arith, ground arith)

-- A row that clashes with none is found by either key.
pub get_credential_last :
    (cs : List ApiCredential) (row : ApiCredential)
    → any_clash row cs ≡ false
    → get_credential row.id (cs ++ row ∷ []) ≡ some row
unfolding get_credential any_clash
get_credential_last [] row h = rw (eqb_refl row.id) refl
get_credential_last (c ∷ cs) row h =
    let (here, later) =
      or_false (c.id == row.id || text_eq c.client_id row.client_id) (any_clash row cs) h in
    rw (or_false (c.id == row.id) (text_eq c.client_id row.client_id) here).0
      (get_credential_last cs row later)

pub find_client_last :
    (cs : List ApiCredential) (row : ApiCredential)
    → any_clash row cs ≡ false
    → find_client row.client_id (cs ++ row ∷ []) ≡ some row
unfolding find_client any_clash
find_client_last [] row h = rw (text_eq_refl row.client_id) refl
find_client_last (c ∷ cs) row h =
    let (here, later) =
      or_false (c.id == row.id || text_eq c.client_id row.client_id) (any_clash row cs) h in
    rw (or_false (c.id == row.id) (text_eq c.client_id row.client_id) here).1
      (find_client_last cs row later)

-- The row that a client id finds has an id that finds a row.
pub found_by_id :
    (client : Text) (cs : List ApiCredential) (c : ApiCredential)
    → find_client client cs ≡ some c
    → (d : ApiCredential) × (get_credential c.id cs ≡ some d)
unfolding find_client get_credential
found_by_id client [] c h = absurd (ground arith)
found_by_id client (d ∷ cs) c h = elim (Bool-cases (text_eq d.client_id client)) [
  | inl own ↦
      let e : d ≡ c = some_injective d c (rw own at h) in
      (d, rw (ap (λ (x : ApiCredential). x.id) e, eqb_refl c.id) refl)
  | inr other ↦
      let (x, e) = found_by_id client cs c (rw other at h) in
      elim (Bool-cases (d.id == c.id)) [
        | inl same ↦ (d, rw same refl)
        | inr differ ↦ (x, rw differ e)
      ]
]

-- What a lookup by id finds has the id.
pub get_credential_id :
    (id : ℕ) (cs : List ApiCredential) (c : ApiCredential)
    → get_credential id cs ≡ some c
    → c.id ≡ id
unfolding get_credential
get_credential_id id [] c h = absurd (ground arith)
get_credential_id id (d ∷ cs) c h = elim (Bool-cases (d.id == id)) [
  | inl own ↦
      ap (λ (x : ApiCredential). x.id) (sym (some_injective d c (rw own at h))) ∙ eqb→eq d.id id own
  | inr other ↦ get_credential_id id cs c (rw other at h)
]
