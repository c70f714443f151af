-- ===== src/Composition/Order.antt =====
-- A pipeline of messages and of groups of messages runs its stages one after the other.
use remoulade.Prelude.{
  ◌≡◌, refl, ℕ, false, some, List, [], ◌∷◌, map, Bool, ap, subst, some_inj, sym, ◌∙◌, All, ◌≢◌,
}
use remoulade.Message.{
  Message, message, Options, options, Target, no_target, target, message_id, Messages, end, next,
  target_of, pipe_target, build_message, no_options, to_list, from_list,
}
use remoulade.Composition.{
  pipeline, Stages, done, then_message, then_group, group, Members, empty, and_message,
  and_pipeline, run_pipeline, build_pipeline, build_stages, build_group, build_members, stamp,
  child_options, group_options, shared_after, first_or, Built, Events, >>=-eq-some, some_messages,
  some_messages_eq, size,
}
use mathlib.Core.List.{nil≢cons}
use remoulade.Composition.Reach.{NoTarget, target-stamp, target-group_options}

-- No pipeline stands inside a group, and no message has a pipe target of its own.
abbrev pub IsFlatMembers : Members → Type 0
IsFlatMembers empty = Unit
IsFlatMembers (and_message m ms) = NoTarget m × IsFlatMembers ms
IsFlatMembers (and_pipeline p ms) = ⊥

abbrev pub IsFlat : Stages → Type 0
IsFlat done = Unit
IsFlat (then_message m s) = NoTarget m × IsFlat s
IsFlat (then_group (group i c ms) s) = IsFlatMembers ms × IsFlat s

abbrev pub level : Members → List ℕ
level empty = []
level (and_message m ms) = message_id m ∷ level ms
level (and_pipeline p ms) = level ms

abbrev cons_level : List ℕ → List (List ℕ) → List (List ℕ)
cons_level [] ls = ls
cons_level (i ∷ is) ls = (i ∷ is) ∷ ls

-- The identifiers of each stage, in order. An empty group is no stage.
abbrev pub levels : Stages → List (List ℕ)
levels done = []
levels (then_message m s) = (message_id m ∷ []) ∷ levels s
levels (then_group (group i c ms) s) = cons_level (level ms) (levels s)

-- The target holds the first stage's messages, and every one of them targets the stages behind.
abbrev pub Chain : List (List ℕ) → Target → Type 0
Chain [] t = t ≡ no_target
Chain (ids ∷ rest) t =
    (ms : Messages) × (t ≡ target ms)
    × (map message_id (to_list ms) ≡ ids)
    × All (λ m. Chain rest (pipe_target m)) (to_list ms)

abbrev as_target : Messages → Target
as_target end = no_target
as_target (next m ms) = target (next m ms)

message_id-build_message :
    (o : Options) (m : Message) → message_id (build_message o m) ≡ message_id m
unfolding build_message
message_id-build_message o (message h p) = refl

pipe_target-build_message :
    (o : Options) (m : Message) → NoTarget m → pipe_target (build_message o m) ≡ target_of o
unfolding build_message
pipe_target-build_message (options no_target f) (message h (options no_target f')) n = refl
pipe_target-build_message (options (target ms) f) (message h (options no_target f')) n = refl
pipe_target-build_message o (message h (options (target ms) f)) n = cc

given_target :
    (c : ℕ) (x : Bool) (ms : Messages) (o : Options)
    → target_of o ≡ no_target
    → target_of (stamp c x (child_options ms o)) ≡ as_target ms
given_target c x end o e = target-stamp c x end o ∙ e
given_target c x (next m ms) o e = target-stamp c x (next m ms) o

shared_target :
    (c : ℕ) (x : Bool) (ms : Messages) (o : Options)
    → target_of o ≡ no_target
    → target_of (shared_after ms o (stamp c x (child_options ms o))) ≡ no_target
shared_target c x end o e = given_target c x end o e
shared_target c x (next m ms) o e = e

-- The members of a flat group are its messages, each with the target of the shared dict.
members_level :
    (ms : Members) (o : Options) (c : ℕ) (x : Bool) (b : Built)
    → IsFlatMembers ms
    → build_members ms o c x ≡ some b
    → (map message_id (to_list b.messages) ≡ level ms)
      × All (λ m. pipe_target m ≡ target_of o) (to_list b.messages)
unfolding build_pipeline
members_level empty o c x b flat e =
    let e' = ap (λ (z : Built). z.messages) (some_inj e) in rw (← e') (refl, tt)
members_level (and_message m ms) o c x b flat e =
    let (rest, p, q) = >>=-eq-some (build_members ms o c x) _ e in
    let (ids, targets) = members_level ms o c x rest flat.1 p in
    let e' = ap (λ (z : Built). z.messages) (some_inj q) in
    rw (← e')
      (cc (message_id-build_message o m, ids), (pipe_target-build_message o m flat.0, targets))
members_level (and_pipeline p ms) o c x b flat e = absurd flat

All-Chain :
    (ls : List (List ℕ)) (t u : Target) (ms : List Message)
    → All (λ m. pipe_target m ≡ t) ms
    → t ≡ u
    → Chain ls u
    → All (λ m. Chain ls (pipe_target m)) ms
All-Chain ls t u [] a e c = tt
All-Chain ls t u (m ∷ ms) a e c = (subst (Chain ls) (sym (a.0 ∙ e)) c, All-Chain ls t u ms a.1 e c)

-- A level in front of a chain.
cons-Chain :
    (ids : List ℕ) (ls : List (List ℕ)) (t : Target) (ms after : Messages)
    → map message_id (to_list ms) ≡ ids
    → All (λ m. pipe_target m ≡ t) (to_list ms)
    → t ≡ as_target after
    → Chain ls (as_target after)
    → Chain (cons_level ids ls) (as_target (first_or ms after))
cons-Chain [] ls t end after i a e c = c
cons-Chain (j ∷ js) ls t end after i a e c = absurd (nil≢cons i)
cons-Chain [] ls t (next m ms) after i a e c = absurd (nil≢cons (sym i))
cons-Chain (j ∷ js) ls t (next m ms) after i a e c =
    (next m ms, refl, i, All-Chain ls t (as_target after) (to_list (next m ms)) a e c)

record IsChain (s : Stages) (b : Built) : Type 0 where
  chain : Chain (levels s) (as_target b.messages)
  untouched : target_of b.shared ≡ no_target

stages-IsChain :
    (s : Stages) (o : Options) (c : ℕ) (x : Bool) (b : Built)
    → IsFlat s
    → target_of o ≡ no_target
    → build_stages s o c x ≡ some b
    → IsChain s b
unfolding build_pipeline
stages-IsChain done o c x b flat t e =
    subst (IsChain done) (some_inj e) (record { chain = refl; untouched = t })
stages-IsChain (then_message m s) o c x b flat t e =
    let (after, p, q) = >>=-eq-some (build_stages s o c x) _ e in
    let r = stages-IsChain s o c x after flat.1 t p in
    let given = stamp c x (child_options after.messages after.shared) in
    subst (IsChain (then_message m s)) (some_inj q) (record {
      chain =
          cons-Chain (message_id m ∷ []) (levels s) (target_of given)
            (next (build_message given m) end) after.messages
            (ap (λ i. i ∷ []) (message_id-build_message given m))
            (pipe_target-build_message given m flat.0, tt)
            (given_target c x after.messages after.shared r.untouched) r.chain;
      untouched = shared_target c x after.messages after.shared r.untouched;
    })
stages-IsChain (then_group (group i k ms) s) o c x b flat t e =
    let (after, p, q) = >>=-eq-some (build_stages s o c x) _ e in
    let r = stages-IsChain s o c x after flat.1 t p in
    let given = stamp c x (child_options after.messages after.shared) in
    let (whole, h, q') = >>=-eq-some (build_group (group i k ms) (some given)) _ q in
    let shared = group_options i (size ms) k given in
    let (built, h', q'') = >>=-eq-some (build_members ms shared _ _) _ h in
    let (ids, targets) = members_level ms shared _ _ built flat.0 h' in
    let same : built.messages ≡ whole.messages = ap (λ (z : Built). z.messages) (some_inj q'') in
    subst (IsChain (then_group (group i k ms) s)) (some_inj q') (record {
      chain = rw (← same) (
          cons-Chain (level ms) (levels s) (target_of shared) built.messages after.messages ids
            targets
            (target-group_options i (size ms) k given
              ∙ given_target c x after.messages after.shared r.untouched)
            r.chain);
      untouched = shared_target c x after.messages after.shared r.untouched;
    })

as_target-from_list : (ms : Messages) → ms ≢ end → as_target ms ≡ target (from_list (to_list ms))
as_target-from_list end s = absurd (s refl)
as_target-from_list (next m ms) s = ap (λ z. target (next m z)) (round ms)
  where
    round : (ns : Messages) → ns ≡ from_list (to_list ns)
    round end = refl
    round (next n ns) = ap (next n) (round ns)

-- What a pipeline of messages and of groups of messages enqueues is its first stage, and the pipe
-- targets lead on through the other stages in order, empty groups left out; the members of a group
-- all have the whole next stage for their target.
pub run_pipeline-Chain :
    (s : Stages) (cancels : Bool) (unique_id : ℕ) (ms : List Message) (es : Events)
    → IsFlat s
    → run_pipeline (pipeline cancels s) unique_id ≡ some (ms, es)
    → Chain (levels s) (target (from_list ms))
unfolding run_pipeline
run_pipeline-Chain s x c ms es flat e =
    let (built, h, q) = >>=-eq-some (build_pipeline (pipeline x s) no_options c false) _ e in
    let (first, h', q') = >>=-eq-some (some_messages built) _ q in
    let (same, solid) = some_messages_eq built first h' in
    let r = stages-IsChain s no_options c x built flat refl h in
    let parts : built.messages ≡ first.messages = ap (λ (z : Built). z.messages) same in
    let lists : to_list first.messages ≡ ms =
      ap (λ (z : List Message × Events). z.0) (some_inj q') in
    subst (λ l. Chain (levels s) (target (from_list l))) (ap to_list parts ∙ lists)
      (subst (Chain (levels s)) (as_target-from_list built.messages solid) r.chain)
