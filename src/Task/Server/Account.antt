-- ===== src/Task/Server/Account.antt =====
-- task/server.rs: who holds permits, receivers and senders in the server's own steps.
use rxh.Prelude.{ℕ, ◌+◌, ◌-◌, ◌≤◌, ◌≡◌, some, Bool, arith}
use rxh.Tokio.{Semaphore, Broadcast, Mpsc}
use rxh.Notify
use rxh.Notify.{Notification}
use rxh.Task.Server
use rxh.Task.Server.{
  Phase, initial, selecting, dropped, collecting, freeing, freed, finished, loop_head, acquiring,
  accepting, Point, Task, System,
}
use rxh.Task.Server.Counts.{permit_of, receiver_of, sender_of, total}

-- The permit that `listen` itself holds.
abbrev pub held : Phase → ℕ
held (selecting accepting) = 1
held _ = 0

-- The senders of acknowledgements, against the tasks that hold one and those that may use the
-- configuration: the notifier has one until it collects, and when it has none left there is no user.
abbrev pub Account : Phase → (senders holders users : ℕ) → Type 0
Account initial n ts tr = n ≡ ts + 1
Account (selecting p) n ts tr = n ≡ ts + 1
Account dropped n ts tr = n ≡ ts + 1
Account collecting n ts tr = n ≡ ts
Account freeing n ts tr = tr ≡ 0
Account freed n ts tr = tr ≡ 0
Account finished n ts tr = tr ≡ 0

pub Account-step :
    (p : Phase) (n n' ts ts' tr tr' d : ℕ)
    → Account p n ts tr
    → ts ≡ ts' + d
    → n' ≡ n - d
    → tr' ≤ tr
    → Account p n' ts' tr'
Account-step initial n n' ts ts' tr tr' d a e f g = omega arith
Account-step (selecting p) n n' ts ts' tr tr' d a e f g = omega arith
Account-step dropped n n' ts ts' tr tr' d a e f g = omega arith
Account-step collecting n n' ts ts' tr tr' d a e f g = omega arith
Account-step freeing n n' ts ts' tr tr' d a e f g = omega arith
Account-step freed n n' ts ts' tr tr' d a e f g = omega arith
Account-step finished n n' ts ts' tr tr' d a e f g = omega arith

module _ {sm : Semaphore} {bc : Broadcast Notification} {mp : Mpsc} where
  -- The invariant at a phase.
  pub record Holds (max : ℕ) (p : Phase) (s : System sm bc mp) : Type 0 where
    pub permits : sm.available s.connections + total permit_of s.tasks + held p ≡ max
    pub receivers : bc.receivers s.channels.notifications ≡ total receiver_of s.tasks
    pub senders :
        Account p
          (mp.senders s.channels.acknowledgements)
          (total sender_of s.tasks)
          (total receiver_of s.tasks)

  abbrev pub Inv : ℕ → System sm bc mp → Type 0
  Inv max s = Holds max s.phase s

  pub init-Inv : (max : ℕ) → Inv max (Server.init sm bc mp max)
  unfolding Server.init Notify.new
  init-Inv max = record {
    permits = omega (arith, sm.available-sem max);
    receivers = bc.receivers-bus;
    senders = mp.chan-empty.0;
  }

  module _ {max : ℕ} {s : System sm bc mp} where
    pub begin-Inv : Holds max initial s → Inv max (Server.begin sm bc mp s)
    unfolding Server.begin
    begin-Inv h = record { permits = h.permits; receivers = h.receivers; senders = h.senders }

    pub check_permits-Inv :
        Holds max (selecting loop_head) s → Inv max (Server.check_permits sm bc mp s)
    unfolding Server.check_permits
    check_permits-Inv h = record {
      permits = h.permits;
      receivers = h.receivers;
      senders = h.senders;
    }

    pub acquired-Inv :
        (again : Bool) (permits : sm.Sem)
        → sm.acquire s.connections ≡ some permits
        → Holds max (selecting (acquiring again)) s
        → Inv max (Server.acquired sm bc mp again permits s)
    unfolding Server.acquired
    acquired-Inv again permits e h = record {
      permits = omega (arith, sm.acquire_takes s.connections permits e, h.permits);
      receivers = h.receivers;
      senders = h.senders;
    }

    pub spawn-Inv : Holds max (selecting accepting) s → Inv max (Server.spawn sm bc mp s)
    unfolding Server.spawn Notify.subscribe
    spawn-Inv h = record {
      permits = omega (arith, h.permits);
      receivers = omega (arith, h.receivers, bc.receivers-subscribe s.channels.notifications);
      senders = omega (arith, h.senders, (mp.clone_counts s.channels.acknowledgements).0);
    }

    pub accept_failed-Inv :
        Holds max (selecting accepting) s → Inv max (Server.accept_failed sm bc mp s)
    unfolding Server.accept_failed
    accept_failed-Inv h = record {
      permits = omega (arith, h.permits, sm.release_gives s.connections);
      receivers = h.receivers;
      senders = h.senders;
    }

    pub local_addr_failed-Inv :
        Holds max (selecting accepting) s → Inv max (Server.local_addr_failed sm bc mp s)
    unfolding Server.local_addr_failed Notify.subscribe Notify.drop_sender Notify.drop_receiver
    local_addr_failed-Inv h = record {
      permits = omega (arith, h.permits, sm.release_gives s.connections);
      receivers =
          let (r, b) = bc.subscribe s.channels.notifications in
          omega (
            arith,
            h.receivers,
            bc.receivers-subscribe s.channels.notifications,
            bc.receivers-drop r b,
          );
      senders =
          let c = s.channels.acknowledgements in
          omega (arith, h.senders, (mp.clone_counts c).0, (mp.drop_counts (mp.clone_sender c)).0);
    }

    pub signalled-Inv :
        (p : Point) → Holds max (selecting p) s → Inv max (Server.signalled sm bc mp p s)
    unfolding Server.signalled
    signalled-Inv loop_head h = record {
      permits = h.permits;
      receivers = h.receivers;
      senders = h.senders;
    }
    signalled-Inv (acquiring again) h = record {
      permits = h.permits;
      receivers = h.receivers;
      senders = h.senders;
    }
    signalled-Inv accepting h = record {
      permits = omega (arith, h.permits, sm.release_gives s.connections);
      receivers = h.receivers;
      senders = h.senders;
    }
