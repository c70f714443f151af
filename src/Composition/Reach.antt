-- ===== src/Composition/Reach.antt =====
-- Which messages a built composition leads to: nothing is lost on the way, and nothing is made up.
pub mod Steps
use remoulade.Prelude.{
  ℕ, ◌≡◌, refl, Bool, true, false, ◌||◌, List, [], none, some, arith, any, ◌≢◌, subst, some_inj,
}
use remoulade.Message.{
  Message, Options, Target, Messages, end, next, target_of, no_options, to_list,
}
use remoulade.Composition.{
  Pipeline, pipeline, Stages, done, then_message, then_group, Group, group, Members, empty,
  and_message, and_pipeline, Built, stamp, child_options, group_options, Events, some_messages,
  run_pipeline, run_group, build_pipeline, build_stages, build_group, build_members, pipeline_ids,
  stage_ids, group_ids, member_ids, flatten, >>=-eq-some, some_messages_eq, size,
}
pub use remoulade.Composition.Reach.Steps.{
  occurs_in, occurs, mem, is_some_messages, NoTarget, IsFresh, IsFreshStages, IsFreshGroup,
  IsFreshMembers, Reaches, target-stamp, target-group_options, message_step, group_step,
  member_message_step, member_pipeline_step,
}

abbrev ReachesBuilt : List ℕ → Target → Built → Type 0
ReachesBuilt ids t b = Reaches ids t b.messages b.shared

mutual
  unfolding build_pipeline pipeline_ids flatten

  pipeline_reaches :
      (p : Pipeline) (o : Options) (c : ℕ) (x : Bool) (b : Built)
      → IsFresh p
      → build_pipeline p o c x ≡ some b
      → ReachesBuilt (flatten (pipeline_ids p)) (target_of o) b
  pipeline_reaches (pipeline k s) o c x b fresh e = stages_reach s o c (x || k) b fresh e

  stages_reach :
      (s : Stages) (o : Options) (c : ℕ) (x : Bool) (b : Built)
      → IsFreshStages s
      → build_stages s o c x ≡ some b
      → ReachesBuilt (flatten (stage_ids s)) (target_of o) b
  stages_reach done o c x b fresh e =
      subst (ReachesBuilt [] (target_of o)) (some_inj e)
        (record { kept = refl; leads = λ i. refl; all_lead = λ h i. refl })
  stages_reach (then_message m s) o c x b fresh e =
      let (after, p, q) = >>=-eq-some (build_stages s o c x) _ e in
      subst (ReachesBuilt _ (target_of o)) (some_inj q) (
        message_step _ _ c x m after.messages after.shared fresh.0
          (stages_reach s o c x after fresh.1 p))
  stages_reach (then_group g s) o c x b fresh e =
      let (after, p, q) = >>=-eq-some (build_stages s o c x) _ e in
      let given = stamp c x (child_options after.messages after.shared) in
      let (built, r, u) = >>=-eq-some (build_group g (some given)) _ q in
      subst (ReachesBuilt _ (target_of o)) (some_inj u) (
        group_step _ _ _ c x after.messages built.messages after.shared built.shared
          (stages_reach s o c x after fresh.1 p) (group_reaches g given built fresh.0 r))

  group_reaches :
      (g : Group) (o : Options) (b : Built)
      → IsFreshGroup g
      → build_group g (some o) ≡ some b
      → ReachesBuilt (flatten (group_ids g)) (target_of o) b
  group_reaches (group i k ms) o b fresh e =
      let (built, p, q) = >>=-eq-some (build_members ms (group_options i (size ms) k o) _ _) _ e in
      subst (ReachesBuilt _ (target_of o)) (some_inj q) (
        rw (target-group_options i (size ms) k o) at
          (members_reach ms (group_options i (size ms) k o) _ _ built fresh p))

  members_reach :
      (ms : Members) (o : Options) (c : ℕ) (x : Bool) (b : Built)
      → IsFreshMembers ms
      → build_members ms o c x ≡ some b
      → ReachesBuilt (flatten (member_ids ms)) (target_of o) b
  members_reach empty o c x b fresh e =
      subst (ReachesBuilt [] (target_of o)) (some_inj e)
        (record { kept = refl; leads = λ i. refl; all_lead = λ h i. refl })
  members_reach (and_message m ms) o c x b fresh e =
      let (rest, p, q) = >>=-eq-some (build_members ms o c x) _ e in
      subst (ReachesBuilt _ (target_of o)) (some_inj q) (
        member_message_step _ _ m o rest.messages rest.shared fresh.0 refl
          (members_reach ms o c x rest fresh.1 p))
  members_reach (and_pipeline p ms) o c x b fresh e =
      let (built, h, q) = >>=-eq-some (build_pipeline p o c x) _ e in
      let (first, h', q') = >>=-eq-some (some_messages built) _ q in
      let (same, solid) = some_messages_eq built first h' in
      let (rest, h'', q'') = >>=-eq-some (build_members ms first.shared c x) _ q' in
      let r = pipeline_reaches p o c x built fresh.0 h in
      let r' : ReachesBuilt _ (target_of o) first = subst (ReachesBuilt _ (target_of o)) same r in
      subst (ReachesBuilt _ (target_of o)) (some_inj q'') (
        member_pipeline_step _ _ _ first.messages rest.messages first.shared rest.shared
          (rw same at solid) r'
          (rw r'.kept at (members_reach ms first.shared c x rest fresh.1 h'')))

any-to_list : (i : ℕ) (ms : Messages) → any (occurs_in i) (to_list ms) ≡ occurs i ms
any-to_list i end = refl
any-to_list i (next m ms) = ground (arith, any-to_list i ms)

-- The messages that running a pipeline enqueues lead, through their pipe targets, to exactly the
-- messages of the composition. Its messages must have no pipe targets of their own before.
pub run_pipeline_reaches :
    (p : Pipeline) (unique_id : ℕ) (ms : List Message) (es : Events)
    → IsFresh p
    → run_pipeline p unique_id ≡ some (ms, es)
    → (i : ℕ) → any (occurs_in i) ms ≡ mem i (flatten (pipeline_ids p))
unfolding run_pipeline
run_pipeline_reaches p c ms es fresh e i =
    let (built, h, q) = >>=-eq-some (build_pipeline p no_options c false) _ e in
    let (first, h', q') = >>=-eq-some (some_messages built) _ q in
    let (same, solid) = some_messages_eq built first h' in
    let r = pipeline_reaches p no_options c false built fresh h in
    ground (
      arith,
      (some_inj q'),
      same,
      any-to_list i first.messages,
      solid_some built.messages solid,
      r.leads i,
    )
  where
    solid_some : (ns : Messages) → ns ≢ end → is_some_messages ns ≡ true
    solid_some end s = absurd (s refl)
    solid_some (next a as') s = refl

-- So do the messages that running a group enqueues.
pub run_group_reaches :
    (g : Group) (ms : List Message)
    → IsFreshGroup g
    → run_group g ≡ some ms
    → (i : ℕ) → any (occurs_in i) ms ≡ mem i (flatten (group_ids g))
unfolding run_group build_pipeline pipeline_ids
run_group_reaches (group j k ns) ms fresh e i =
    let o = group_options j (size ns) k no_options in
    let (whole, h, q) = >>=-eq-some (build_group (group j k ns) none) _ e in
    let (built, h', q') = >>=-eq-some (build_members ns o j k) _ h in
    let r = members_reach ns o j k built fresh h' in
    ground (
      arith,
      some_inj q,
      some_inj q',
      any-to_list i built.messages,
      r.leads i,
      target-group_options j (size ns) k no_options,
      λ (empty : is_some_messages built.messages ≡ false). r.all_lead empty i,
    )
