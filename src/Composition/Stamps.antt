-- ===== src/Composition/Stamps.antt =====
-- The composition id and the cancel flag reach every message of a built composition.
use remoulade.Prelude.{
  ℕ, ◌≡◌, refl, Bool, true, false, not, ◌||◌, ◌&&◌, List, Option, none, some, arith, nat_beq, ap,
  subst, some_inj, all,
}
use remoulade.Message.{
  Flags, Message, message, Options, options, Target, no_target, target, Messages, end, next,
  flags_of, target_of, build_message, append_messages, no_options, to_list,
}
use remoulade.Composition.{
  Pipeline, pipeline, Stages, done, then_message, then_group, Group, group, Members, empty,
  and_message, and_pipeline, Built, Events, stamp, child_options, group_options, first_or,
  shared_after, some_messages, run_pipeline, build_pipeline, build_stages, build_group,
  build_members, >>=-eq-some, some_messages_eq, get_or, size,
}
use remoulade.Composition.Reach.{NoTarget, IsFresh, IsFreshStages, IsFreshGroup, IsFreshMembers}

abbrev id_is : ℕ → Option ℕ → Bool
id_is c none = false
id_is c (some d) = nat_beq d c

abbrev is_true : Option Bool → Bool
is_true none = false
is_true (some b) = b

-- The options have the composition id, and, if `need`, the cancel flag.
abbrev pub is_stamped : ℕ → Bool → Flags → Bool
is_stamped c need f = id_is c f.composition_id && (not need || is_true f.cancel_on_error)

-- The same of every message that a message leads to, itself included.
abbrev mutual
  pub stamped_in : ℕ → Bool → Message → Bool
  stamped_in c need (message h o) = stamped_options c need o

  pub stamped_options : ℕ → Bool → Options → Bool
  stamped_options c need (options t f) = is_stamped c need f && stamped_target c need t

  pub stamped_target : ℕ → Bool → Target → Bool
  stamped_target c need no_target = true
  stamped_target c need (target ms) = stamped c need ms

  pub stamped : ℕ → Bool → Messages → Bool
  stamped c need end = true
  stamped c need (next m ms) = stamped_in c need m && stamped c need ms

module _ (c : ℕ) (need : Bool) where
  stamped-append :
      (ms ns : Messages)
      → stamped c need ms ≡ true
      → stamped c need ns ≡ true
      → stamped c need (append_messages ms ns) ≡ true
  stamped-append end ns p q = q
  stamped-append (next m ms) ns p q = ground (arith, stamped-append ms ns)

  stamped-build_message :
      (o : Options) (m : Message)
      → NoTarget m
      → stamped_options c need o ≡ true
      → stamped_in c need (build_message o m) ≡ true
  unfolding build_message
  stamped-build_message (options no_target f) (message h (options no_target f')) n e = ground arith
  stamped-build_message (options (target ms) f) (message h (options no_target f')) n e =
      ground arith
  stamped-build_message o (message h (options (target ms) f)) n e = cc

  stamped-stamp :
      (x : Bool) (ms : Messages) (o : Options)
      → (not need || x) ≡ true
      → stamped c need ms ≡ true
      → stamped_target c need (target_of o) ≡ true
      → stamped_options c need (stamp c x (child_options ms o)) ≡ true
  unfolding stamp child_options
  stamped-stamp x end (options t f) n p q = ground arith
  stamped-stamp x (next m ms) (options t f) n p q = ground arith

  stamped-group_options :
      (i n : ℕ) (k : Bool) (o : Options)
      → stamped_options c need o ≡ true
      → (stamped_options c need (group_options i n k o) ≡ true)
        × (get_or (flags_of o).composition_id i ≡ c)
        × ((not need || get_or (flags_of o).cancel_on_error k) ≡ true)
  unfolding group_options
  stamped-group_options i n k (options no_target f) e = ground arith
  stamped-group_options i n k (options (target ms) f) e = ground arith

  -- What was built under the dict `o`; the dict that comes back is as good as `o`.
  record IsStamped (o : Options) (b : Built) : Type 0 where
    every : stamped c need b.messages ≡ true
    targets : stamped_target c need (target_of b.shared) ≡ true
    kept : stamped_options c need o ≡ true → stamped_options c need b.shared ≡ true

  shared_after-stamped :
      (ms : Messages) (o given : Options)
      → stamped_target c need (target_of o) ≡ true
      → stamped_options c need given ≡ true
      → (stamped_target c need (target_of (shared_after ms o given)) ≡ true)
        × (stamped_options c need o ≡ true
            → stamped_options c need (shared_after ms o given) ≡ true)
  shared_after-stamped end o (options t f) p q = (ground arith, λ _. q)
  shared_after-stamped (next m ms) o given p q = (p, λ r. r)

  first_or-stamped :
      (ms ns : Messages)
      → stamped c need ms ≡ true
      → stamped c need ns ≡ true
      → stamped c need (first_or ms ns) ≡ true
  first_or-stamped end ns p q = q
  first_or-stamped (next m ms) ns p q = p

  target_of-stamped :
      (o : Options) → stamped_options c need o ≡ true → stamped_target c need (target_of o) ≡ true
  target_of-stamped (options t f) e = ground arith

  mutual
    unfolding build_pipeline

    pipeline-IsStamped :
        (p : Pipeline) (o : Options) (x : Bool) (b : Built)
        → IsFresh p
        → (not need || x) ≡ true
        → stamped_target c need (target_of o) ≡ true
        → build_pipeline p o c x ≡ some b
        → IsStamped o b
    pipeline-IsStamped (pipeline k s) o x b fresh n t e =
        stages-IsStamped s o (x || k) b fresh (ground arith) t e

    stages-IsStamped :
        (s : Stages) (o : Options) (x : Bool) (b : Built)
        → IsFreshStages s
        → (not need || x) ≡ true
        → stamped_target c need (target_of o) ≡ true
        → build_stages s o c x ≡ some b
        → IsStamped o b
    stages-IsStamped done o x b fresh n t e =
        subst (IsStamped o) (some_inj e) (record { every = refl; targets = t; kept = λ h. h })
    stages-IsStamped (then_message m s) o x b fresh n t e =
        let (after, p, q) = >>=-eq-some (build_stages s o c x) _ e in
        let r = stages-IsStamped s o x after fresh.1 n t p in
        let given = stamp c x (child_options after.messages after.shared) in
        let g = stamped-stamp x after.messages after.shared n r.every r.targets in
        let k = shared_after-stamped after.messages after.shared given r.targets g in
        subst (IsStamped o) (some_inj q) (record {
          every = ground (arith, stamped-build_message given m fresh.0 g);
          targets = k.0;
          kept = λ h. k.1 (r.kept h);
        })
    stages-IsStamped (then_group g s) o x b fresh n t e =
        let (after, p, q) = >>=-eq-some (build_stages s o c x) _ e in
        let r = stages-IsStamped s o x after fresh.1 n t p in
        let given = stamp c x (child_options after.messages after.shared) in
        let ok = stamped-stamp x after.messages after.shared n r.every r.targets in
        let k = shared_after-stamped after.messages after.shared given r.targets ok in
        let (built, p', q') = >>=-eq-some (build_group g (some given)) _ q in
        subst (IsStamped o) (some_inj q') (record {
          every =
              first_or-stamped built.messages after.messages
                (group_stamped g given built fresh.0 ok p') r.every;
          targets = k.0;
          kept = λ h. k.1 (r.kept h);
        })

    group_stamped :
        (g : Group) (o : Options) (b : Built)
        → IsFreshGroup g
        → stamped_options c need o ≡ true
        → build_group g (some o) ≡ some b
        → stamped c need b.messages ≡ true
    group_stamped (group i k ms) o b fresh ok e =
        let shared = group_options i (size ms) k o in
        let (good, id, cancel) = stamped-group_options i (size ms) k o ok in
        let (built, p, q) = >>=-eq-some (build_members ms shared _ _) _ e in
        rw (← ap (λ (z : Built). z.messages) (some_inj q))
          (members-IsStamped ms shared _ built fresh cancel good (rw id at p)).every

    members-IsStamped :
        (ms : Members) (o : Options) (x : Bool) (b : Built)
        → IsFreshMembers ms
        → (not need || x) ≡ true
        → stamped_options c need o ≡ true
        → build_members ms o c x ≡ some b
        → IsStamped o b
    members-IsStamped empty o x b fresh n t e =
        subst (IsStamped o) (some_inj e)
          (record { every = refl; targets = target_of-stamped o t; kept = λ h. h })
    members-IsStamped (and_message m ms) o x b fresh n t e =
        let (rest, p, q) = >>=-eq-some (build_members ms o c x) _ e in
        let r = members-IsStamped ms o x rest fresh.1 n t p in
        subst (IsStamped o) (some_inj q) (record {
          every = ground (arith, stamped-build_message o m fresh.0 t, r.every);
          targets = r.targets;
          kept = r.kept;
        })
    members-IsStamped (and_pipeline p ms) o x b fresh n t e =
        let (built, h, q) = >>=-eq-some (build_pipeline p o c x) _ e in
        let (first, h', q') = >>=-eq-some (some_messages built) _ q in
        let (rest, h'', q'') = >>=-eq-some (build_members ms first.shared c x) _ q' in
        let r = pipeline-IsStamped p o x built fresh.0 n (target_of-stamped o t) h in
        let r' = subst (IsStamped o) (some_messages_eq built first h').0 r in
        let s = members-IsStamped ms first.shared x rest fresh.1 n (r'.kept t) h'' in
        subst (IsStamped o) (some_inj q'') (record {
          every = stamped-append first.messages rest.messages r'.every s.every;
          targets = s.targets;
          kept = λ z. s.kept (r'.kept z);
        })

or-not : (x : Bool) → (not x || x) ≡ true
or-not true = refl
or-not false = refl

all-to_list :
    (c : ℕ) (need : Bool) (ms : Messages)
    → stamped c need ms ≡ true
    → all (stamped_in c need) (to_list ms) ≡ true
all-to_list c need end e = refl
all-to_list c need (next m ms) e = ground (arith, all-to_list c need ms)

-- Every message that a run of a pipeline leads to, at any depth, has the run's composition id; and
-- if the pipeline cancels on errors, each of them does.
pub run_pipeline_stamped :
    (s : Stages) (cancels : Bool) (unique_id : ℕ) (ms : List Message) (es : Events)
    → IsFreshStages s
    → run_pipeline (pipeline cancels s) unique_id ≡ some (ms, es)
    → all (stamped_in unique_id cancels) ms ≡ true
unfolding run_pipeline
run_pipeline_stamped s x c ms es fresh e =
    let (built, h, q) = >>=-eq-some (build_pipeline (pipeline x s) no_options c false) _ e in
    let (first, h', q') = >>=-eq-some (some_messages built) _ q in
    let r = (stages-IsStamped c x s no_options x built fresh (or-not x) refl h).every in
    ground
      (arith, some_inj q', (some_messages_eq built first h').0, all-to_list c x first.messages, r)
