-- ===== src/QueueNames/Laws.antt =====
-- The laws of the three names. Every name is a base with one of three endings, and each function is
-- read off the ending.
use remoulade.Prelude.{
  ◌+◌, ◌-◌, ◌≤◌, ◌≡◌, refl, sym, ap, ◌∙◌, ◌↔◌, ◌⊎◌, inl, inr, ◌≢◌, true, false, [], ◌∷◌, ◌++◌,
  arith, length, length-append, take, take-append, text_beq, text_beq_sound, text_beq_iff,
  Bool-cases,
}
use remoulade.QueueNames.{
  Name, dq_suffix, xq_suffix, ends_with, drop_last, q_name, dq_name, xq_name,
}

ends_with_split : (t s : Name) → ends_with t s ≡ true → (p : Name) × (s ≡ p ++ t)
unfolding ends_with
ends_with_split t [] h = ([], text_beq_sound [] t h)
ends_with_split t (c ∷ s) h = elim (Bool-cases (text_beq (c ∷ s) t)) [
  | inl whole ↦ ([], text_beq_sound (c ∷ s) t whole)
  | inr part ↦ let (p, e) = ends_with_split t s (ground arith) in (c ∷ p, ap (◌∷◌ c) e)
]

ends_with-append : (t p : Name) → ends_with t (p ++ t) ≡ true
unfolding ends_with
ends_with-append [] [] = refl
ends_with-append (c ∷ t) [] = ground (arith, text_beq_iff (c ∷ t) (c ∷ t))
ends_with-append t (c ∷ p) = ground (arith, ends_with-append t p)

drop_last-append : (p t : Name) → drop_last (length t) (p ++ t) ≡ p
unfolding drop_last
drop_last-append p t =
    let e : length (p ++ t) - length t ≡ length p = omega (arith, length-append p t) in
    ap (λ n. take n (p ++ t)) e ∙ take-append p t

text_beq_longer : (s t : Name) → length t + 1 ≤ length s → text_beq s t ≡ false
text_beq_longer [] t h = absurd (omega arith)
text_beq_longer (c ∷ s) [] h = refl
text_beq_longer (c ∷ s) (d ∷ t) h = ground (arith, text_beq_longer s t)

ends_with-xq-dq : (p : Name) → ends_with xq_suffix (p ++ dq_suffix) ≡ false
unfolding ends_with
ends_with-xq-dq [] = refl
ends_with-xq-dq (c ∷ p) = ground (
  arith,
  length-append p dq_suffix,
  text_beq_longer (c ∷ p ++ dq_suffix) xq_suffix,
  ends_with-xq-dq p,
)

ends_with-dq-xq : (p : Name) → ends_with dq_suffix (p ++ xq_suffix) ≡ false
unfolding ends_with
ends_with-dq-xq [] = refl
ends_with-dq-xq (c ∷ p) = ground (
  arith,
  length-append p xq_suffix,
  text_beq_longer (c ∷ p ++ xq_suffix) dq_suffix,
  ends_with-dq-xq p,
)

-- A name without either ending.
abbrev pub IsCanonical : Name → Type 0
IsCanonical q = (ends_with dq_suffix q ≡ false) × (ends_with xq_suffix q ≡ false)

-- The base of a name and its ending.
data Shape : Name → Type 0 where
  delay : (p s : Name) → s ≡ p ++ dq_suffix → Shape s
  dead : (p s : Name) → s ≡ p ++ xq_suffix → Shape s
  plain : (s : Name) → IsCanonical s → Shape s

shape : (s : Name) → Shape s
shape s = elim (Bool-cases (ends_with dq_suffix s)) [
  | inl d ↦ let (p, e) = ends_with_split dq_suffix s d in delay p s e
  | inr d ↦ elim (Bool-cases (ends_with xq_suffix s)) [
    | inl x ↦ let (p, e) = ends_with_split xq_suffix s x in dead p s e
    | inr x ↦ plain s (d, x)
  ]
]

module _ (p : Name) where
  q_name-delay : q_name (p ++ dq_suffix) ≡ p
  unfolding q_name
  q_name-delay = ground (arith, ends_with-append dq_suffix p, drop_last-append p dq_suffix)

  q_name-dead : q_name (p ++ xq_suffix) ≡ p
  unfolding q_name
  q_name-dead = ground (arith, ends_with-append xq_suffix p, drop_last-append p xq_suffix)

  dq_name-delay : dq_name (p ++ dq_suffix) ≡ p ++ dq_suffix
  unfolding dq_name
  dq_name-delay = ground (arith, ends_with-append dq_suffix p)

  dq_name-dead : dq_name (p ++ xq_suffix) ≡ p ++ dq_suffix
  unfolding dq_name
  dq_name-dead =
      ground (arith, ends_with-dq-xq p, ends_with-append xq_suffix p, drop_last-append p xq_suffix)

  xq_name-delay : xq_name (p ++ dq_suffix) ≡ p ++ xq_suffix
  unfolding xq_name
  xq_name-delay =
      ground (arith, ends_with-xq-dq p, ends_with-append dq_suffix p, drop_last-append p dq_suffix)

  xq_name-dead : xq_name (p ++ xq_suffix) ≡ p ++ xq_suffix
  unfolding xq_name
  xq_name-dead = ground (arith, ends_with-append xq_suffix p)

module _ (q : Name) (h : IsCanonical q) where
  q_name-plain : q_name q ≡ q
  unfolding q_name
  q_name-plain = ground arith

  dq_name-plain : dq_name q ≡ q ++ dq_suffix
  unfolding dq_name
  dq_name-plain = ground arith

  xq_name-plain : xq_name q ≡ q ++ xq_suffix
  unfolding xq_name
  xq_name-plain = ground arith

dq_name-base : (s : Name) → dq_name s ≡ q_name s ++ dq_suffix
dq_name-base s = elim (shape s) [
  | delay p s' e ↦ rw e (cc (dq_name-delay p, q_name-delay p))
  | dead p s' e ↦ rw e (cc (dq_name-dead p, q_name-dead p))
  | plain s' h ↦ cc (dq_name-plain s' h, q_name-plain s' h)
]

xq_name-base : (s : Name) → xq_name s ≡ q_name s ++ xq_suffix
xq_name-base s = elim (shape s) [
  | delay p s' e ↦ rw e (cc (xq_name-delay p, q_name-delay p))
  | dead p s' e ↦ rw e (cc (xq_name-dead p, q_name-dead p))
  | plain s' h ↦ cc (xq_name-plain s' h, q_name-plain s' h)
]

-- A name as it is made up: its canonical name without an ending, or with one of the two.
abbrev pub IsMadeOf : Name → Name → Type 0
IsMadeOf q p = (q ≡ p) ⊎ (q ≡ p ++ dq_suffix) ⊎ (q ≡ p ++ xq_suffix)

q_name-IsMadeOf : (q : Name) → IsMadeOf q (q_name q)
q_name-IsMadeOf q = elim (shape q) [
  | delay p s e ↦ inr (inl (e ∙ ap (λ x. x ++ dq_suffix) (sym (ap q_name e ∙ q_name-delay p))))
  | dead p s e ↦ inr (inr (e ∙ ap (λ x. x ++ xq_suffix) (sym (ap q_name e ∙ q_name-dead p))))
  | plain s h ↦ inl (sym (q_name-plain s h))
]

names_laws :
    (q : Name)
    → (q_name (dq_name q) ≡ q_name q)
      × (q_name (xq_name q) ≡ q_name q)
      × (dq_name (dq_name q) ≡ dq_name q)
      × (xq_name (xq_name q) ≡ xq_name q)
      × (dq_name (xq_name q) ≡ dq_name q)
      × (xq_name (dq_name q) ≡ xq_name q)
names_laws q = elim (shape q) [
  | delay p s e ↦ rw e (
    cc (dq_name-delay p, q_name-delay p),
    cc (xq_name-delay p, q_name-dead p, q_name-delay p),
    cc (dq_name-delay p),
    cc (xq_name-delay p, xq_name-dead p),
    cc (xq_name-delay p, dq_name-dead p, dq_name-delay p),
    cc (dq_name-delay p),
  )
  | dead p s e ↦ rw e (
    cc (dq_name-dead p, q_name-delay p, q_name-dead p),
    cc (xq_name-dead p),
    cc (dq_name-dead p, dq_name-delay p),
    cc (xq_name-dead p),
    cc (xq_name-dead p),
    cc (dq_name-dead p, xq_name-delay p, xq_name-dead p),
  )
  | plain s h ↦ (
    cc (dq_name-plain s h, q_name-delay s, q_name-plain s h),
    cc (xq_name-plain s h, q_name-dead s, q_name-plain s h),
    cc (dq_name-plain s h, dq_name-delay s),
    cc (xq_name-plain s h, xq_name-dead s),
    cc (xq_name-plain s h, dq_name-dead s, dq_name-plain s h),
    cc (dq_name-plain s h, xq_name-delay s, xq_name-plain s h),
  )
]

-- For every name, canonical or not: it is its canonical name with no ending, with ".DQ" or with ".XQ";
-- the delay name is the canonical name with ".DQ" and the dead-letter name that with ".XQ"; both have
-- the same canonical name as it, both functions are idempotent, and each undoes the other.
pub names_lem :
    (q : Name)
    → (q_name (dq_name q) ≡ q_name q)
      × (q_name (xq_name q) ≡ q_name q)
      × (dq_name (dq_name q) ≡ dq_name q)
      × (xq_name (xq_name q) ≡ xq_name q)
      × (dq_name (xq_name q) ≡ dq_name q)
      × (xq_name (dq_name q) ≡ xq_name q)
      × (dq_name q ≡ q_name q ++ dq_suffix)
      × (xq_name q ≡ q_name q ++ xq_suffix)
      × IsMadeOf q (q_name q)
names_lem q = (
  (names_laws q).0,
  (names_laws q).1,
  (names_laws q).2,
  (names_laws q).3,
  (names_laws q).4,
  (names_laws q).5,
  dq_name-base q,
  xq_name-base q,
  q_name-IsMadeOf q,
)

pub ends_with-dq_name : (q : Name) → ends_with dq_suffix (dq_name q) ≡ true
ends_with-dq_name q = elim (shape q) [
  | delay p s e ↦ rw (e, dq_name-delay p) (ends_with-append dq_suffix p)
  | dead p s e ↦ rw (e, dq_name-dead p) (ends_with-append dq_suffix p)
  | plain s h ↦ rw (dq_name-plain s h) (ends_with-append dq_suffix s)
]

-- Two queues share a delay queue exactly when they have one canonical name, so different canonical
-- queues never share one; and the delay queue is never the dead-letter queue of any queue.
pub dq_name_separates :
    (q r : Name) → ((dq_name q ≡ dq_name r) ↔ (q_name q ≡ q_name r)) × (dq_name q ≢ xq_name r)
dq_name_separates q r = ((same, delays), apart)
  where
    same : dq_name q ≡ dq_name r → q_name q ≡ q_name r
    same e = sym (names_lem q).0 ∙ ap q_name e ∙ (names_lem r).0

    delays : q_name q ≡ q_name r → dq_name q ≡ dq_name r
    delays e = dq_name-base q ∙ ap (λ p. p ++ dq_suffix) e ∙ sym (dq_name-base r)

    apart : dq_name q ≢ xq_name r
    apart e = cc (
      ends_with-dq_name q,
      ends_with-dq-xq (q_name r),
      ap (ends_with dq_suffix) (e ∙ xq_name-base r),
    )
