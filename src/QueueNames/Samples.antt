-- ===== src/QueueNames/Samples.antt =====
-- The three names of the queue "a", and the theorems at it.
use remoulade.Prelude.{◌≡◌, refl, [], ◌∷◌, ◌++◌}
use remoulade.QueueNames.{Name, dq_suffix, xq_suffix, q_name, dq_name, xq_name}
use remoulade.QueueNames.Laws.{IsMadeOf, names_lem}

abbrev queue_a : Name
queue_a = b'a' ∷ []

names_of_a :
    (dq_name queue_a ≡ queue_a ++ dq_suffix)
    × (xq_name (queue_a ++ dq_suffix) ≡ queue_a ++ xq_suffix)
    × (q_name (queue_a ++ xq_suffix) ≡ queue_a)
unfolding dq_name xq_name q_name
names_of_a = (refl, refl, refl)

names_lem_example :
    (q_name (dq_name queue_a) ≡ q_name queue_a)
    × (q_name (xq_name queue_a) ≡ q_name queue_a)
    × (dq_name (dq_name queue_a) ≡ dq_name queue_a)
    × (xq_name (xq_name queue_a) ≡ xq_name queue_a)
    × (dq_name (xq_name queue_a) ≡ dq_name queue_a)
    × (xq_name (dq_name queue_a) ≡ xq_name queue_a)
    × (dq_name queue_a ≡ q_name queue_a ++ dq_suffix)
    × (xq_name queue_a ≡ q_name queue_a ++ xq_suffix)
    × IsMadeOf queue_a (q_name queue_a)
names_lem_example = names_lem queue_a
