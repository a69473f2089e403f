-- ===== src/Journey/Messages.antt =====
-- What the gateway queues of the messages that the simulator publishes.
use telemetry_platform_testb.Base.{
  ℕ, ◌≡◌, ◌≢◌, refl, ap, ap₂, subst, ◌∙◌, Bool, true, Bool-cases, inl, inr, List, [], ◌∷◌, ◌++◌,
  Option, none, some, if◌then◌else◌,
}
use telemetry_platform_testb.Types.{TelemetryMsg, TelemetryState}
use telemetry_platform_testb.Publisher.{PubArgs, build_message, Moment}
use telemetry_platform_testb.Publisher.Rounds.{payloads}
use telemetry_platform_testb.Gateway.Message.{topic_telemetry_state, copy_raw, Given, Received}
use telemetry_platform_testb.Gateway.Message.Names.{IsFitting, snapshot_sample}
use telemetry_platform_testb.Gateway.Message.Receive.{admitted, admitted-snapshot}
use telemetry_platform_testb.Gateway.Run.{Action, receives, writes, stops}
use telemetry_platform_testb.Gateway.Run.Accounts.{accepted, runs_after}
use telemetry_platform_testb.Gateway.Writer.{Database}
use telemetry_platform_testb.Gateway.Writer.Rounds.{Transactions}

-- The messages that arrive, with what the system answers to each.
abbrev pub arrivals : List Action → List (Given × Received)
arrivals [] = []
arrivals (receives e msg ∷ as_) = (e, msg) ∷ arrivals as_
arrivals (writes t0 t1 ∷ as_) = arrivals as_
arrivals (stops ∷ as_) = arrivals as_

-- No stop is among the actions.
abbrev pub GoesOn : List Action → Type 0
GoesOn [] = Unit {0}
GoesOn (receives e msg ∷ as_) = GoesOn as_
GoesOn (writes t0 t1 ∷ as_) = GoesOn as_
GoesOn (stops ∷ as_) = ⊥

-- The broker delivers these payloads, in this order, on the topic of the state; and calloc has a node
-- for each.
abbrev pub Delivers : List (Given × Received) → List (List ℕ) → Type 0
Delivers [] [] = Unit {0}
Delivers [] (p ∷ ps) = ⊥
Delivers (r ∷ rs) [] = ⊥
Delivers (r ∷ rs) (p ∷ ps) =
    (r.1.topic ≡ some topic_telemetry_state)
    × (r.1.payload ≡ p)
    × (r.0.node ≢ none)
    × Delivers rs ps

module _ {F : Type 0} (zero_f : F) (pack : TelemetryMsg F → List ℕ)
    (unpack : List ℕ → Option (TelemetryMsg F)) (a : PubArgs) (period_ns : ℕ) where
  -- The sample of a snapshot that arrives: its readings, with the time of arrival and the raw payload.
  abbrev pub sample_of : Given → Moment F → TelemetryState F
  sample_of e m =
      copy_raw e.raw_room (pack (build_message a m.cache m.now))
        (snapshot_sample zero_f e.now_realtime_ns a m.cache m.now)

  -- The samples of the rounds that had memory, in order, one for each arrival.
  abbrev pub samples_of : List (Moment F) → List (Given × Received) → List (TelemetryState F)
  samples_of [] rs = []
  samples_of (m ∷ ms) [] = []
  samples_of (m ∷ ms) (r ∷ rs) =
      if m.room then sample_of r.0 m ∷ samples_of ms rs else samples_of ms (r ∷ rs)

  -- unpack undoes pack on the message of each round.
  abbrev pub Unpacks : List (Moment F) → Type 0
  Unpacks [] = Unit {0}
  Unpacks (m ∷ ms) =
      (unpack (pack (build_message a m.cache m.now)) ≡ some (build_message a m.cache m.now))
      × Unpacks ms

  module _ (fits : IsFitting a) where
    admitted_all : List (Given × Received) → List (TelemetryState F)
    admitted_all [] = []
    admitted_all (r ∷ rs) = admitted zero_f unpack true r.0 r.1 ++ admitted_all rs

    accepted-arrivals :
        (as_ : List Action)
        → GoesOn as_
        → accepted zero_f unpack true as_ ≡ admitted_all (arrivals as_)
    unfolding admitted_all
    accepted-arrivals [] on = refl
    accepted-arrivals (receives e msg ∷ as_) on =
        ap (λ r. admitted zero_f unpack true e msg ++ r) (accepted-arrivals as_ on)
    accepted-arrivals (writes t0 t1 ∷ as_) on = accepted-arrivals as_ on
    accepted-arrivals (stops ∷ as_) on = absurd on

    admitted-sample :
        (e : Given) (msg : Received) (m : Moment F)
        → msg.topic ≡ some topic_telemetry_state
        → msg.payload ≡ pack (build_message a m.cache m.now)
        → e.node ≢ none
        → unpack (pack (build_message a m.cache m.now)) ≡ some (build_message a m.cache m.now)
        → admitted zero_f unpack true e msg ≡ sample_of e m ∷ []
    admitted-sample e msg m topic payload noded whole =
        admitted-snapshot zero_f unpack e msg a m.cache m.now topic noded fits
          (ap unpack payload ∙ whole)
        ∙ ap
            (λ p.
              copy_raw e.raw_room p (snapshot_sample zero_f e.now_realtime_ns a m.cache m.now) ∷ [])
            payload

    admitted_all-samples :
        (ms : List (Moment F)) (rs : List (Given × Received))
        → Unpacks ms
        → Delivers rs (payloads pack a period_ns ms)
        → admitted_all rs ≡ samples_of ms rs
    unfolding admitted_all
    admitted_all-samples [] [] u d = refl
    admitted_all-samples [] (r ∷ rs) u d = absurd d
    admitted_all-samples (m ∷ ms) [] u d = refl
    admitted_all-samples (m ∷ ms) (r ∷ rs) u d =
        let sent = λ (b : Bool). Delivers (r ∷ rs) (
          if b
          then pack (build_message a m.cache m.now) ∷ payloads pack a period_ns ms
          else payloads pack a period_ns ms) in
        elim (Bool-cases m.room) [
          | inl room ↦
              let e : sent true = subst sent room d in
              rw room (
                ap₂ (λ x xs. x ++ xs) (admitted-sample r.0 r.1 m e.0 e.1 e.2 u.0)
                  (admitted_all-samples ms rs u.1 e.3))
          | inr full ↦ rw full (admitted_all-samples ms (r ∷ rs) u.1 (subst sent full d))
        ]

    -- What is to be queued of published messages that all arrive, in order.
    pub accepted-samples :
        (ms : List (Moment F)) (as_ : List Action)
        → GoesOn as_
        → Unpacks ms
        → Delivers (arrivals as_) (payloads pack a period_ns ms)
        → accepted zero_f unpack true as_ ≡ samples_of ms (arrivals as_)
    accepted-samples ms as_ on u d =
        accepted-arrivals as_ on ∙ admitted_all-samples ms (arrivals as_) u d

    pub runs_after-going :
        {J : Type 0} (db : Database (TelemetryState F)) (t : Transactions db)
        (to_json : TelemetryState F → Option J) (max : ℕ) (as_ : List Action)
        → GoesOn as_
        → runs_after db t to_json max zero_f unpack true as_ ≡ true
    runs_after-going db t to_json max [] on = refl
    runs_after-going db t to_json max (receives e msg ∷ as_) on =
        runs_after-going db t to_json max as_ on
    runs_after-going db t to_json max (writes t0 t1 ∷ as_) on =
        runs_after-going db t to_json max as_ on
    runs_after-going db t to_json max (stops ∷ as_) on = absurd on
