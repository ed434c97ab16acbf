-- ===== src/CoreClient/Loop.antt =====
-- procLoop and testDialer of core/cs.go: the goroutine of a client's pool, which sweeps it at every
-- tick and tests the dialer at some. The dialer is a SortedDialer in a state of its own; what its
-- dialers answer is a parameter. `clock` and `tests` are not in the program: they record the end of
-- the last tick, and the begin and the end of each test, latest first.
pub mod Testing
use gocs.Prelude.{
  ℕ, zero, suc, ◌+◌, ◌-◌, ◌≤◌, ◌≡◌, Bool, true, false, Option, none, some, List, [], ◌∷◌, Bytes,
  ltb, if◌then◌else◌,
}
use gocs.Errors.{Error, Result, ok, err}
use gocs.Channel.{Conn, Raw, new_channel_conn, ping}
use gocs.Dialers.Sorted.{Float, Sorted}
use gocs.Dialers.Sorted.Testing.{Answer, refuses, works, test}
use gocs.CoreClient.{Client, timeout_conn}

-- testDialer over frame.Write of 8 KiB and frame.Read of the library, which Ping calls.
module _ (write_all read_some : Conn → Option Error × Conn) where
  -- The worker of testDialer.
  abbrev pub ping_worker : ℕ → Raw → Option Error
  ping_worker now raw = (ping write_all read_some (new_channel_conn 0 now raw)).0

  -- What Test gets of a dialer that is no Tester, from its dial and the time that it takes.
  abbrev pub ping_answer : ℕ → Result Raw × ℕ → Answer (Unit {0})
  ping_answer now (err e, used) = refuses e
  ping_answer now (ok raw, used) = works (ping_worker now raw) used

  -- testDialer, of a client whose dialer is a Tester; one that is not stays as it is.
  unfoldable pub test_dialer :
      (float : Float)
      → (List Bytes → List Bytes)
      → (Bytes → Result Raw × ℕ)
      → ℕ
      → Sorted float
      → Sorted float
  unfolding test
  test_dialer float sort dials now s = (test float (λ key. ping_answer now (dials key)) sort s).1

pub record Loop (D : Type 0) : Type 0 where
  pub client : Client
  pub dialer : D
  pub test_delay : ℕ
  pub running : Bool
  pub test_last : Option ℕ
  pub clock : ℕ
  pub tests : List (ℕ × ℕ)

-- `time.Since(testLast) > c.TestDelay`, where testLast is the zero time at first.
abbrev pub is_due : ℕ → Option ℕ → ℕ → Bool
is_due delay none checked = true
is_due delay (some last) checked = ltb delay (checked - last)

module _ {D : Type 0} where
  -- procLoop in front of its first round, at this time.
  unfoldable pub new_loop : ℕ → Client → D → Loop D
  new_loop now c dialer = record {
    client = c;
    dialer = dialer;
    test_delay = 30000;
    running = true;
    test_last = none;
    clock = now;
    tests = [];
  }

  module _ (test : ℕ → D → D) where
    -- The test at a tick, from the time of the check to the end of the test.
    abbrev pub tested : ℕ → ℕ → Loop D → Loop D
    tested checked used l = record l {
      dialer = test checked l.dialer;
      test_last = some (checked + used);
      clock = checked + used;
      tests = (checked, checked + used) ∷ l.tests;
    }

    -- A tick: the sweep at its time, and at the time of the check the test, if it is due, which
    -- takes its time.
    unfoldable pub tick : ℕ → ℕ → ℕ → Loop D → Loop D
    unfolding timeout_conn
    tick swept checked used l =
        let l' : Loop D = record l { client = timeout_conn swept l.client; clock = checked } in
        if is_due l.test_delay l.test_last checked then tested checked used l' else l'

  -- `case <-c.exit`
  unfoldable pub leave : Loop D → Option (Loop D)
  leave l = elim l.client.exits [
    | zero ↦ none
    | suc n ↦ some (record l { running = false; client = record l.client { exits = n } })
  ]

  module _ (test : ℕ → D → D) (period : ℕ) where
    -- What happens to a running loop whose ticks come at most a period behind the end of the one
    -- before: a tick, an exit, or what the other goroutines do to the pool and
    -- the dialer, a Close among it.
    pub data Step : Loop D → Loop D → Type 0 where
      ticks :
          {l : Loop D} (swept checked used : ℕ)
          → l.running ≡ true
          → l.clock ≤ swept
          → swept ≤ checked
          → checked ≤ l.clock + period
          → Step l (tick test swept checked used l)
      leaves : {l m : Loop D} → l.running ≡ true → leave l ≡ some m → Step l m
      changes :
          {l : Loop D} (c : Client) (dialer : D) → Step l (record l { client = c; dialer = dialer })

    pub data Runs (l : Loop D) : Loop D → Type 0 where
      here : Runs l l
      then_step : {m n : Loop D} → Runs l m → Step m n → Runs l n
