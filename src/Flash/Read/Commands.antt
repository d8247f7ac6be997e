-- ===== src/Flash/Read/Commands.antt =====
-- What a sequence of the driver's steps sends and issues on a host that answers at once.
use mathlib.Core.Option
use mathlib.Core.Option.{none, some}
use core_v_mini_mcu.Base.{
  ℕ, ◌%◌, ◌^◌, ◌<◌, ◌≡◌, refl, subst, arith, Bool, true, List, [], ◌∷◌, ◌++◌, append_assoc,
  append-nil, Gives, gives, Gives-bind,
}
use core_v_mini_mcu.Flash.{Setup, Step, run, send, issue, wait_for_ready, wait_for_rx_watermark}
use core_v_mini_mcu.Flash.Read.Answer.{Serves, At, send-At, issue-At, wait_for_ready-At, filled-At}
use core_v_mini_mcu.SpiHost.{Host}
use core_v_mini_mcu.SpiHost.Word.{Command, spi_create_command, spi_validate_cmd}

pub data Action : Type 0 where
  word : ℕ → Action
  ready filled : Action
  segment : ℕ → Bool → ℕ → ℕ → Action

-- The command word of a segment.
abbrev pub command : ℕ → Bool → ℕ → ℕ → ℕ
command len csaat speed direction =
    spi_create_command
      (record { len = len % 2 ^ 24; csaat = csaat; speed = speed; direction = direction })

abbrev pub steps : Setup → List Action → List Step
steps setup [] = []
steps setup (word w ∷ actions) = send setup w ∷ steps setup actions
steps setup (ready ∷ actions) = wait_for_ready setup ∷ steps setup actions
steps setup (filled ∷ actions) = wait_for_rx_watermark setup ∷ steps setup actions
steps setup (segment len csaat speed direction ∷ actions) =
    issue setup len csaat speed direction ∷ steps setup actions

abbrev pub sent_by : List Action → List ℕ
sent_by [] = []
sent_by (word w ∷ actions) = w ∷ sent_by actions
sent_by (ready ∷ actions) = sent_by actions
sent_by (filled ∷ actions) = sent_by actions
sent_by (segment len csaat speed direction ∷ actions) = sent_by actions

abbrev pub issued_by : List Action → List ℕ
issued_by [] = []
issued_by (word w ∷ actions) = issued_by actions
issued_by (ready ∷ actions) = issued_by actions
issued_by (filled ∷ actions) = issued_by actions
issued_by (segment len csaat speed direction ∷ actions) =
    command len csaat speed direction ∷ issued_by actions

-- Every segment has a speed and a direction that go together.
abbrev pub AllValid : List Action → Type 0
AllValid [] = Unit {0}
AllValid (word w ∷ actions) = AllValid actions
AllValid (ready ∷ actions) = AllValid actions
AllValid (filled ∷ actions) = AllValid actions
AllValid (segment len csaat speed direction ∷ actions) =
    (speed < 4) × (direction < 4) × (spi_validate_cmd direction speed ≡ true) × AllValid actions

pub run-append :
    (before after : List Step) (h : Host)
    → run (before ++ after) h ≡ Option.bind (run before h) (run after)
unfolding run mathlib.Core.Option.bind
run-append [] after h = refl
run-append (step ∷ before) after h =
    elim (step h)
      as (λ r.
        Option.bind r (run (before ++ after))
        ≡ Option.bind (Option.bind r (run before)) (run after)) [
          | none ↦ refl
          | some h1 ↦ run-append before after h1
        ]

module _ (setup : Setup) (serves : Serves setup) (incoming : ℕ → ℕ) (taken : ℕ) where
  pub run-At :
      (actions : List Action) (sent issued : List ℕ) (h : Host)
      → AllValid actions
      → At sent issued incoming taken h
      → Gives
          (At (sent ++ sent_by actions) (issued ++ issued_by actions) incoming taken)
          (run (steps setup actions) h)
  unfolding run
  run-At [] sent issued h valid now = rw (append-nil sent, append-nil issued) (gives now)
  run-At (word w ∷ actions) sent issued h valid now =
      Gives-bind (At (sent ++ w ∷ []) issued incoming taken)
        (At (sent ++ w ∷ sent_by actions) (issued ++ issued_by actions) incoming taken)
        (send-At setup serves incoming w sent issued taken h now)
        (λ h1 next.
          subst
            (λ (s : List ℕ).
              Gives (At s (issued ++ issued_by actions) incoming taken)
                (run (steps setup actions) h1))
            (append_assoc sent (w ∷ []) (sent_by actions))
            (run-At actions (sent ++ w ∷ []) issued h1 valid next))
  run-At (ready ∷ actions) sent issued h valid now =
      Gives-bind (At sent issued incoming taken)
        (At (sent ++ sent_by actions) (issued ++ issued_by actions) incoming taken)
        (wait_for_ready-At setup serves incoming sent issued taken h now)
        (λ h1 next. run-At actions sent issued h1 valid next)
  run-At (filled ∷ actions) sent issued h valid now =
      Gives-bind (At sent issued incoming taken)
        (At (sent ++ sent_by actions) (issued ++ issued_by actions) incoming taken)
        (filled-At setup serves incoming sent issued taken h now)
        (λ h1 next. run-At actions sent issued h1 valid next)
  run-At (segment len csaat speed direction ∷ actions) sent issued h valid now =
      let c : Command = record {
        len = len % 2 ^ 24;
        csaat = csaat;
        speed = speed;
        direction = direction;
      } in
      let w = spi_create_command c in
      let (fast, way, fits, rest) = valid in
      Gives-bind (At sent (issued ++ w ∷ []) incoming taken)
        (At (sent ++ sent_by actions) (issued ++ w ∷ issued_by actions) incoming taken)
        (issue-At setup serves incoming c sent issued taken h (omega arith) fast way fits now)
        (λ h1 next.
          subst
            (λ (i : List ℕ).
              Gives (At (sent ++ sent_by actions) i incoming taken) (run (steps setup actions) h1))
            (append_assoc issued (w ∷ []) (issued_by actions))
            (run-At actions sent (issued ++ w ∷ []) h1 rest next))

  -- The steps of some actions, and then others.
  pub run_then :
      (actions : List Action) (others : List Step) (sent issued : List ℕ) (P : Host → Type 0)
      (h : Host)
      → AllValid actions
      → At sent issued incoming taken h
      → ((h1 : Host)
          → At (sent ++ sent_by actions) (issued ++ issued_by actions) incoming taken h1
          → Gives P (run others h1))
      → Gives P (run (steps setup actions ++ others) h)
  run_then actions others sent issued P h valid now next =
      rw (run-append (steps setup actions) others h) (
        Gives-bind (At (sent ++ sent_by actions) (issued ++ issued_by actions) incoming taken) P
          (run-At actions sent issued h valid now) next)
