-- ===== src/Results/Storing.antt =====
-- Which results the messages behind a failed one get.
use remoulade.Prelude.{nat_eq}
use remoulade.Message.{Message}
