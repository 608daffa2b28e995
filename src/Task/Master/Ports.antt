-- ===== src/Task/Master/Ports.antt =====
-- An instance of the sockets that src/task uses: every port can be bound.
use rxh.Prelude.{ℕ, true, some, inr}
use rxh.Task.Master.{Sockets}

abbrev pub free_ports : Sockets ℕ ℕ
free_ports = record {
  Os = Unit;
  Socket = ℕ;
  Listener = ℕ;
  is_ipv4 = λ a. true;
  new_v4 = λ o. (inr 0, o);
  new_v6 = λ o. (inr 0, o);
  set_reuseaddr = λ s o. (inr s, o);
  bind = λ s a o. (inr a, o);
  listen = λ s n o. (inr s, o);
  local_addr = λ l. some l;
}
