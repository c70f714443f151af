-- ===== src/CollectionResults/Completion.antt =====
-- When a collection is completed.
use remoulade.Prelude.{
  nat_beq_iff, ℕ, ◌≤◌, ◌≡◌, ◌↔◌, refl, true, List, [], ◌∷◌, ◌++◌, some, length, All, All-append,
  arith, false, Option-cases, inl, inr,
}
use remoulade.Results.{BackendResult, Store, get, get_status}
use remoulade.CollectionResults.{
  Children, result, collection, no_children, child, message_ids, completed_count, completed,
}

-- Every result of the collection, at any depth, is stored and has not expired.
abbrev pub IsStored : ℕ → Store → ℕ → Type 0
IsStored now s i = (r : BackendResult) × ((get i false now s).0 ≡ some r)

abbrev pub AllStored : ℕ → Store → Children → Type 0
AllStored now s no_children = Unit
AllStored now s (child (result i) cs) = IsStored now s i × AllStored now s cs
AllStored now s (child (collection ds) cs) = AllStored now s ds × AllStored now s cs

get_status-le : (now : ℕ) (is : List ℕ) (s : Store) → get_status now is s ≤ length is
unfolding get_status
get_status-le now [] s = omega arith
get_status-le now (i ∷ is) s = ground (arith, get_status-le now is s)

get_status-All :
    (now : ℕ) (is : List ℕ) (s : Store) → get_status now is s ≡ length is → All (IsStored now s) is
unfolding get_status
get_status-All now [] s e = tt
get_status-All now (i ∷ is) s e = elim (Option-cases (get i false now s).0) [
  | inl missing ↦ ground (arith, get_status-le now is s)
  | inr (r, there) ↦ ((r, there), get_status-All now is s (ground arith))
]

get_status-length :
    (now : ℕ) (is : List ℕ) (s : Store) → All (IsStored now s) is → get_status now is s ≡ length is
unfolding get_status
get_status-length now [] s h = refl
get_status-length now (i ∷ is) s ((r, there), others) =
    ground (arith, get_status-length now is s others)

All-split : (Q : ℕ → Type 0) (us vs : List ℕ) → All Q (us ++ vs) → All Q us × All Q vs
All-split Q [] vs h = (tt, h)
All-split Q (u ∷ us) vs (first, rest) =
    let (left, right) = All-split Q us vs rest in ((first, left), right)

AllStored-ids :
    (now : ℕ) (s : Store) (cs : Children)
    → AllStored now s cs
    → All (IsStored now s) (message_ids cs)
unfolding message_ids
AllStored-ids now s no_children h = tt
AllStored-ids now s (child (result i) cs) (first, rest) = (first, AllStored-ids now s cs rest)
AllStored-ids now s (child (collection ds) cs) (first, rest) =
    All-append (IsStored now s) (message_ids ds) (message_ids cs) (AllStored-ids now s ds first)
      (AllStored-ids now s cs rest)

ids-AllStored :
    (now : ℕ) (s : Store) (cs : Children)
    → All (IsStored now s) (message_ids cs)
    → AllStored now s cs
unfolding message_ids
ids-AllStored now s no_children h = tt
ids-AllStored now s (child (result i) cs) (first, rest) = (first, ids-AllStored now s cs rest)
ids-AllStored now s (child (collection ds) cs) h =
    let (left, right) = All-split (IsStored now s) (message_ids ds) (message_ids cs) h in
    (ids-AllStored now s ds left, ids-AllStored now s cs right)

-- A collection is completed exactly when the backend has an unexpired result of each message in it,
-- however deep, and its count of completed messages never exceeds their number.
pub completed-AllStored :
    (now : ℕ) (s : Store) (cs : Children)
    → ((completed now s cs ≡ true) ↔ AllStored now s cs)
      × (completed_count now s cs ≤ length (message_ids cs))
unfolding completed completed_count
completed-AllStored now s cs = (
  (
    λ e. ids-AllStored now s cs (get_status-All now (message_ids cs) s ((nat_beq_iff _ _).0 e)),
    λ h. (nat_beq_iff _ _).1 (get_status-length now (message_ids cs) s (AllStored-ids now s cs h)),
  ),
  get_status-le now (message_ids cs) s,
)
