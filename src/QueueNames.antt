-- ===== src/QueueNames.antt =====
-- remoulade/helpers/queues.py: the canonical, delay and dead-letter names of a queue. A name is the
-- list of its code points.
pub mod Laws
mod Samples
use remoulade.Prelude.{
  ℕ, ◌-◌, Bool, false, List, [], ◌∷◌, ◌++◌, ◌||◌, length, take, text_beq, if◌then◌else◌,
}

abbrev pub Name : Type 0
Name = List ℕ

-- ".DQ" and ".XQ"
abbrev pub dq_suffix : Name
dq_suffix = b'.' ∷ b'D' ∷ b'Q' ∷ []

abbrev pub xq_suffix : Name
xq_suffix = b'.' ∷ b'X' ∷ b'Q' ∷ []

-- `s.endswith(suffix)`
unfoldable pub ends_with : Name → Name → Bool
ends_with suffix [] = text_beq [] suffix
ends_with suffix (c ∷ s) = text_beq (c ∷ s) suffix || ends_with suffix s

-- `s[:-n]`
unfoldable pub drop_last : ℕ → Name → Name
drop_last n s = take (length s - n) s

unfoldable pub q_name : Name → Name
unfolding ends_with drop_last
q_name queue_name =
    if ends_with dq_suffix queue_name || ends_with xq_suffix queue_name
    then drop_last 3 queue_name
    else queue_name

unfoldable pub dq_name : Name → Name
unfolding ends_with drop_last
dq_name queue_name =
    if ends_with dq_suffix queue_name
    then queue_name
    else (if ends_with xq_suffix queue_name then drop_last 3 queue_name else queue_name)
      ++ dq_suffix

unfoldable pub xq_name : Name → Name
unfolding ends_with drop_last
xq_name queue_name =
    if ends_with xq_suffix queue_name
    then queue_name
    else (if ends_with dq_suffix queue_name then drop_last 3 queue_name else queue_name)
      ++ xq_suffix
