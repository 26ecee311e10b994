-- ===== src/Documents/Owned/Order.antt =====
-- The order of the list of documents.
use rag_knowledge_platform_f.Prelude.{◌⊎◌, ◌≤◌, ◌<◌, false, List, [], ◌∷◌, ◌≡◌, All, arith}
use rag_knowledge_platform_f.Sorting.{IsSorted, IsWeakOrder}
use rag_knowledge_platform_f.Database.{Document}
use rag_knowledge_platform_f.Documents.Owned.{newer}

-- `d` is newer than `e`, or as new and its id is not above.
abbrev pub Precedes : Document → Document → Type 0
Precedes d e = (e.created_at < d.created_at) ⊎ ((d.created_at ≡ e.created_at) × (d.id ≤ e.id))

abbrev pub IsNewestFirst : List Document → Type 0
IsNewestFirst [] = Unit
IsNewestFirst (d ∷ ds) = All (Precedes d) ds × IsNewestFirst ds

pub newer-IsWeakOrder : IsWeakOrder newer
unfolding newer
newer-IsWeakOrder = record {
  asym = λ d e h. ground (arith, h);
  co_trans = λ d e f h k. ground (arith, h, k);
}

newer-Precedes : (d e : Document) → newer e d ≡ false → Precedes d e
unfolding newer
newer-Precedes d e h = ground (arith, h)

All-Precedes :
    (d : Document) (ds : List Document) → All (λ e. newer e d ≡ false) ds → All (Precedes d) ds
All-Precedes d [] h = tt
All-Precedes d (e ∷ ds) h = (newer-Precedes d e h.0, All-Precedes d ds h.1)

pub IsSorted-IsNewestFirst : (ds : List Document) → IsSorted newer ds → IsNewestFirst ds
IsSorted-IsNewestFirst [] h = tt
IsSorted-IsNewestFirst (d ∷ ds) h = (All-Precedes d ds h.0, IsSorted-IsNewestFirst ds h.1)
