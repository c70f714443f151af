-- ===== src/Composition/Reach/Steps.antt =====
-- What is reached from messages, and one step of building: a message or a group more in front.
use remoulade.Prelude.{
  ℕ, ◌≡◌, refl, Bool, true, false, if◌then◌else◌, ◌||◌, ◌&&◌, List, [], ◌∷◌, ◌++◌, arith, nat_beq,
  ap, ◌≢◌, ◌∙◌,
}
use remoulade.Message.{
  Message, message, Options, options, Target, no_target, target, Messages, end, next, message_id,
  target_of, build_message, append_messages,
}
use remoulade.Composition.{
  Pipeline, pipeline, Stages, done, then_message, then_group, Group, group, Members, empty,
  and_message, and_pipeline, stamp, child_options, group_options, first_or, shared_after,
}

-- The identifier stands in one of the messages, or in one that they lead to.
abbrev mutual
  pub occurs_in : ℕ → Message → Bool
  occurs_in i (message h o) = nat_beq h.message_id i || occurs_options i o

  pub occurs_options : ℕ → Options → Bool
  occurs_options i (options t f) = occurs_target i t

  pub occurs_target : ℕ → Target → Bool
  occurs_target i no_target = false
  occurs_target i (target ms) = occurs i ms

  pub occurs : ℕ → Messages → Bool
  occurs i end = false
  occurs i (next m ms) = occurs_in i m || occurs i ms

abbrev pub mem : ℕ → List ℕ → Bool
mem i [] = false
mem i (j ∷ js) = nat_beq j i || mem i js

abbrev pub is_some_messages : Messages → Bool
is_some_messages end = false
is_some_messages (next m ms) = true

-- The messages of a composition carry no pipe target of their own before it is built.
abbrev pub NoTarget : Message → Type 0
NoTarget (message h (options t f)) = t ≡ no_target

abbrev mutual
  pub IsFresh : Pipeline → Type 0
  IsFresh (pipeline c s) = IsFreshStages s

  pub IsFreshStages : Stages → Type 0
  IsFreshStages done = Unit
  IsFreshStages (then_message m s) = NoTarget m × IsFreshStages s
  IsFreshStages (then_group g s) = IsFreshGroup g × IsFreshStages s

  pub IsFreshGroup : Group → Type 0
  IsFreshGroup (group i c ms) = IsFreshMembers ms

  pub IsFreshMembers : Members → Type 0
  IsFreshMembers empty = Unit
  IsFreshMembers (and_message m ms) = NoTarget m × IsFreshMembers ms
  IsFreshMembers (and_pipeline p ms) = IsFresh p × IsFreshMembers ms

pub mem-append : (i : ℕ) (xs ys : List ℕ) → mem i (xs ++ ys) ≡ (mem i xs || mem i ys)
mem-append i [] ys = refl
mem-append i (x ∷ xs) ys = ground (arith, mem-append i xs ys)

pub occurs-append :
    (i : ℕ) (ms ns : Messages) → occurs i (append_messages ms ns) ≡ (occurs i ms || occurs i ns)
occurs-append i end ns = refl
occurs-append i (next m ms) ns = ground (arith, occurs-append i ms ns)

pub occurs-build_message :
    (i : ℕ) (o : Options) (m : Message)
    → NoTarget m
    → occurs_in i (build_message o m) ≡ (nat_beq (message_id m) i || occurs_target i (target_of o))
unfolding build_message
occurs-build_message i (options no_target f) (message h (options no_target f')) n = ground arith
occurs-build_message i (options (target ms) f) (message h (options no_target f')) n = ground arith
occurs-build_message i o (message h (options (target ms) f)) n = cc

-- What is built of some ids under a dict with the target `t`: if there are messages at all, they
-- lead to those ids and to where the target leads.
pub record Reaches (ids : List ℕ) (t : Target) (ms : Messages) (o : Options) : Type 0 where
  pub kept : target_of o ≡ t
  pub leads : (i : ℕ) → occurs i ms ≡ (is_some_messages ms && (mem i ids || occurs_target i t))
  pub all_lead : is_some_messages ms ≡ false → (i : ℕ) → mem i ids ≡ false

pub target-stamp :
    (c : ℕ) (x : Bool) (ms : Messages) (o : Options)
    → target_of (stamp c x (child_options ms o))
      ≡ (if is_some_messages ms then target ms else target_of o)
unfolding stamp child_options
target-stamp c x end (options t f) = refl
target-stamp c x (next m ms) (options t f) = refl

pub target-group_options :
    (i n : ℕ) (c : Bool) (o : Options) → target_of (group_options i n c o) ≡ target_of o
unfolding group_options
target-group_options i n c (options no_target f) = refl
target-group_options i n c (options (target ms) f) = refl

-- One more message in front of a pipeline.
pub message_step :
    (ids : List ℕ) (t : Target) (c : ℕ) (x : Bool) (m : Message) (after : Messages) (o : Options)
    → NoTarget m
    → Reaches ids t after o
    → let given = stamp c x (child_options after o) in
      Reaches (message_id m ∷ ids) t (next (build_message given m) end) (shared_after after o given)
message_step ids t c x m end o n r =
    let given = stamp c x (child_options end o) in
    let e = target-stamp c x end o in
    record {
      kept = e ∙ r.kept;
      leads = λ i. ground (
        arith,
        occurs-build_message i given m n,
        ap (occurs_target i) e,
        ap (occurs_target i) r.kept,
        r.all_lead refl i,
      );
      all_lead = λ h i. cc;
    }
message_step ids t c x m (next a as') o n r =
    let given = stamp c x (child_options (next a as') o) in
    let e = target-stamp c x (next a as') o in
    record {
      kept = r.kept;
      leads =
          λ i. ground (arith, occurs-build_message i given m n, ap (occurs_target i) e, r.leads i);
      all_lead = λ h i. cc;
    }

-- One more group in front of a pipeline.
pub group_step :
    (ids gids : List ℕ) (t : Target) (c : ℕ) (x : Bool) (after ms : Messages) (o o' : Options)
    → Reaches ids t after o
    → Reaches gids (target_of (stamp c x (child_options after o))) ms o'
    → Reaches
        (gids ++ ids)
        t
        (first_or ms after)
        (shared_after after o (stamp c x (child_options after o)))
group_step ids gids t c x end ms o o' r g = record {
  kept = e ∙ r.kept;
  leads = leads ms g;
  all_lead = λ h i. all ms g h i;
}
  where
    e : target_of (stamp c x (child_options end o)) ≡ target_of o
    e = target-stamp c x end o

    leads :
        (ns : Messages)
        → Reaches gids (target_of (stamp c x (child_options end o))) ns o'
        → (i : ℕ)
        → occurs i (first_or ns end)
          ≡ (is_some_messages (first_or ns end) && (mem i (gids ++ ids) || occurs_target i t))
    leads end g i = refl
    leads (next a as') g i = ground (
      arith,
      g.leads i,
      mem-append i gids ids,
      ap (occurs_target i) (e ∙ r.kept),
      r.all_lead refl i,
    )

    all :
        (ns : Messages)
        → Reaches gids (target_of (stamp c x (child_options end o))) ns o'
        → is_some_messages (first_or ns end) ≡ false
        → (i : ℕ) → mem i (gids ++ ids) ≡ false
    all end g h i = ground (arith, g.all_lead refl i, r.all_lead refl i, mem-append i gids ids)
    all (next a as') g h i = cc
group_step ids gids t c x (next b bs) end o o' r g = record {
  kept = r.kept;
  leads = λ i. ground (arith, r.leads i, g.all_lead refl i, mem-append i gids ids);
  all_lead = λ h i. cc;
}
group_step ids gids t c x (next b bs) (next a as') o o' r g = record {
  kept = r.kept;
  leads = λ i. ground (
    arith,
    r.leads i,
    g.leads i,
    mem-append i gids ids,
    ap (occurs_target i) (target-stamp c x (next b bs) o),
  );
  all_lead = λ h i. cc;
}

pub member_message_step :
    (ids : List ℕ) (t : Target) (m : Message) (shared : Options) (rest : Messages) (o : Options)
    → NoTarget m
    → target_of shared ≡ t
    → Reaches ids t rest o
    → Reaches (message_id m ∷ ids) t (next (build_message shared m) rest) o
member_message_step ids t m shared end o n e r = record {
  kept = r.kept;
  leads = λ i.
      ground (arith, occurs-build_message i shared m n, ap (occurs_target i) e, r.all_lead refl i);
  all_lead = λ h i. cc;
}
member_message_step ids t m shared (next a as') o n e r = record {
  kept = r.kept;
  leads = λ i. ground (arith, occurs-build_message i shared m n, ap (occurs_target i) e, r.leads i);
  all_lead = λ h i. cc;
}

pub member_pipeline_step :
    (pids ids : List ℕ) (t : Target) (ms rest : Messages) (o o' : Options)
    → ms ≢ end
    → Reaches pids t ms o
    → Reaches ids t rest o'
    → Reaches (pids ++ ids) t (append_messages ms rest) o'
member_pipeline_step pids ids t end rest o o' solid p r = absurd (solid refl)
member_pipeline_step pids ids t (next a as') end o o' solid p r = record {
  kept = r.kept;
  leads = λ i. ground (
    arith,
    occurs-append i (next a as') end,
    p.leads i,
    r.all_lead refl i,
    mem-append i pids ids,
  );
  all_lead = λ h i. cc;
}
member_pipeline_step pids ids t (next a as') (next b bs) o o' solid p r = record {
  kept = r.kept;
  leads = λ i. ground (
    arith,
    occurs-append i (next a as') (next b bs),
    p.leads i,
    r.leads i,
    mem-append i pids ids,
  );
  all_lead = λ h i. cc;
}
