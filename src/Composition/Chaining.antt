-- ===== src/Composition/Chaining.antt =====
-- How compositions are made: `__init__` of pipeline and group, the operator `|` of messages, pipelines
-- and groups, and `__len__`.
use remoulade.Prelude.{
  ℕ, ◌+◌, ◌≡◌, refl, ap, ◌∙◌, Bool, true, false, List, [], ◌∷◌, Option, none, some, if◌then◌else◌,
  arith,
}
use remoulade.Message.{
  Message, message, target, no_target, options, no_options, build_message, update,
}
use remoulade.Composition.{
  ◌>>=◌, Pipeline, pipeline, Stages, done, then_message, then_group, Group, group, Members, empty,
  and_message, and_pipeline,
}

pub data Child : Type 0 where
  a_message : Message → Child
  a_group : Group → Child
  a_pipeline : Pipeline → Child

-- `self.children += child.children`
abbrev pub append_stages : Stages → Stages → Stages
append_stages done ss = ss
append_stages (then_message m s) ss = then_message m (append_stages s ss)
append_stages (then_group g s) ss = then_group g (append_stages s ss)

-- The loop of `pipeline.__init__`: the stages of a pipeline take its place, a message is copied.
unfoldable pub children_stages : List Child → Stages
unfolding build_message
children_stages [] = done
children_stages (a_pipeline (pipeline c s) ∷ rest) = append_stages s (children_stages rest)
children_stages (a_group g ∷ rest) = then_group g (children_stages rest)
children_stages (a_message m ∷ rest) =
    then_message (build_message no_options m) (children_stages rest)

-- `pipeline.__init__`: `none` is the exception of a broker that has no cancel backend.
unfoldable pub new_pipeline :
    (has_cancel_backend cancel_on_error : Bool) → List Child → Option Pipeline
unfolding children_stages
new_pipeline has_cancel_backend true children =
    if has_cancel_backend then some (pipeline true (children_stages children)) else none
new_pipeline has_cancel_backend false children = some (pipeline false (children_stages children))

abbrev pub children_members : List Child → Option Members
children_members [] = some empty
children_members (a_group g ∷ rest) = none
children_members (a_message m ∷ rest) = do ms ← children_members rest; some (and_message m ms)
children_members (a_pipeline p ∷ rest) = do ms ← children_members rest; some (and_pipeline p ms)

-- `group.__init__`: `none` is the ValueError of a group in a group, or the missing cancel backend.
unfoldable pub new_group :
    (has_cancel_backend : Bool) (group_id : ℕ) (cancel_on_error : Bool) → List Child → Option Group
new_group has_cancel_backend group_id true children = do
  ms ← children_members children
  if has_cancel_backend then some (group group_id true ms) else none
new_group has_cancel_backend group_id false children = do
  ms ← children_members children
  some (group group_id false ms)

-- The children of a pipeline, as `tuple(self.children)`.
abbrev pub stages_children : Stages → List Child
stages_children done = []
stages_children (then_message m s) = a_message m ∷ stages_children s
stages_children (then_group g s) = a_group g ∷ stages_children s

abbrev pub with_last : List Child → Child → List Child
with_last [] other = other ∷ []
with_last (c ∷ cs) other = c ∷ with_last cs other

-- `|`: the children that the new pipeline gets.
abbrev pub or_children : Child → Child → List Child
or_children (a_pipeline (pipeline c s)) other = with_last (stages_children s) other
or_children (a_message m) other = a_message m ∷ other ∷ []
or_children (a_group g) other = a_group g ∷ other ∷ []

-- `__or__` of the three: no flag is passed on, so no cancel backend is asked for.
unfoldable pub or : Child → Child → Pipeline
unfolding children_stages
or child other = pipeline false (children_stages (or_children child other))

-- `pipeline.__len__`
unfoldable pub length_of : Stages → ℕ
length_of done = 0
length_of (then_message m s) = 1 + length_of s
length_of (then_group g s) = 1 + length_of s

-- What a child comes to as the stages of a pipeline.
unfoldable pub stages_of : Child → Stages
stages_of (a_message m) = then_message m done
stages_of (a_group g) = then_group g done
stages_of (a_pipeline (pipeline c s)) = s

build_message-no_options : (m : Message) → build_message no_options m ≡ m
unfolding build_message update
build_message-no_options (message h (options no_target f)) = refl
build_message-no_options (message h (options (target ms) f)) = refl

append_stages-done : (s : Stages) → append_stages s done ≡ s
append_stages-done done = refl
append_stages-done (then_message m s) = ap (then_message m) (append_stages-done s)
append_stages-done (then_group g s) = ap (then_group g) (append_stages-done s)

append_stages_assoc :
    (s t u : Stages) → append_stages (append_stages s t) u ≡ append_stages s (append_stages t u)
append_stages_assoc done t u = refl
append_stages_assoc (then_message m s) t u = ap (then_message m) (append_stages_assoc s t u)
append_stages_assoc (then_group g s) t u = ap (then_group g) (append_stages_assoc s t u)

length_of-append_stages : (s t : Stages) → length_of (append_stages s t) ≡ length_of s + length_of t
unfolding length_of
length_of-append_stages done t = omega arith
length_of-append_stages (then_message m s) t = ground (arith, length_of-append_stages s t)
length_of-append_stages (then_group g s) t = ground (arith, length_of-append_stages s t)

children_stages-cons :
    (c : Child) (cs : List Child)
    → children_stages (c ∷ cs) ≡ append_stages (stages_of c) (children_stages cs)
unfolding children_stages stages_of
children_stages-cons (a_message m) cs =
    ap (λ x. then_message x (children_stages cs)) (build_message-no_options m)
children_stages-cons (a_group g) cs = refl
children_stages-cons (a_pipeline (pipeline c s)) cs = refl

children_stages-one : (c : Child) → children_stages (c ∷ []) ≡ stages_of c
unfolding children_stages
children_stages-one c = children_stages-cons c [] ∙ append_stages-done (stages_of c)

children_stages-with_last :
    (s : Stages) (other : Child)
    → children_stages (with_last (stages_children s) other) ≡ append_stages s (stages_of other)
unfolding children_stages
children_stages-with_last done other = children_stages-one other
children_stages-with_last (then_message m s) other =
    rw (build_message-no_options m, children_stages-with_last s other) refl
children_stages-with_last (then_group g s) other =
    ap (then_group g) (children_stages-with_last s other)

-- `a | b` runs the stages of a and then those of b, the stages of a pipeline in its place, and its
-- flag cancel_on_error is not set, whatever those of a and b are.
pub or-stages : (a b : Child) → or a b ≡ pipeline false (append_stages (stages_of a) (stages_of b))
unfolding or stages_of
or-stages (a_message m) b = ap (pipeline false) (
    children_stages-cons (a_message m) (b ∷ [])
    ∙ ap (append_stages (stages_of (a_message m))) (children_stages-one b))
or-stages (a_group g) b = ap (pipeline false) (
    children_stages-cons (a_group g) (b ∷ [])
    ∙ ap (append_stages (stages_of (a_group g))) (children_stages-one b))
or-stages (a_pipeline (pipeline c s)) b = ap (pipeline false) (children_stages-with_last s b)

-- It makes no difference how a chain of `|` is bracketed.
pub or_assoc : (a b c : Child) → or (a_pipeline (or a b)) c ≡ or a (a_pipeline (or b c))
unfolding stages_of
or_assoc a b c =
    rw
      (
        or-stages (a_pipeline (or a b)) c,
        or-stages a (a_pipeline (or b c)),
        or-stages a b,
        or-stages b c,
        append_stages_assoc (stages_of a) (stages_of b) (stages_of c),
      )
      refl

-- Its length is the sum of the lengths.
pub length_of-or :
    (a b : Child)
    → length_of (stages_of (a_pipeline (or a b)))
      ≡ length_of (stages_of a) + length_of (stages_of b)
unfolding stages_of
length_of-or a b =
    ap (λ p. length_of (stages_of (a_pipeline p))) (or-stages a b)
    ∙ length_of-append_stages (stages_of a) (stages_of b)
