-- ===== src/Publisher/Rounds.antt =====
-- The rounds of telemetry_pub_thread in src/core/telemetry_state_pub.c, one after another.
use telemetry_platform_testb.Base.{
  ℕ, ◌+◌, ◌*◌, ◌<◌, ◌≡◌, refl, arith, Bool-cases, inl, inr, List, [], ◌∷◌, some, ◌>>=◌,
  if◌then◌else◌,
}
use telemetry_platform_testb.Tick.{Timespec, second_ns, total_ns, next_tick-Advances}
use telemetry_platform_testb.Types.{TelemetryMsg}
use telemetry_platform_testb.Publisher.{PubArgs, build_message, Moment, pub_round, pub_rounds}

module _ {F : Type 0} (pack : TelemetryMsg F → List ℕ) (a : PubArgs) (period_ns : ℕ) where
  -- The messages of the rounds that have memory, and their number.
  abbrev pub payloads : List (Moment F) → List (List ℕ)
  payloads [] = []
  payloads (m ∷ ms) =
      if m.room then pack (build_message a m.cache m.now) ∷ payloads ms else payloads ms

  abbrev pub sent_count : List (Moment F) → ℕ
  sent_count [] = 0
  sent_count (m ∷ ms) = (if m.room then 1 else 0) + sent_count ms

  -- Any number of rounds ends; the payloads are the packed messages of the snapshots, in order, of the
  -- rounds that had memory; and the deadline is the first one and a whole period for each of them, and
  -- stays normalised.
  pub pub_rounds-payloads :
      (ms : List (Moment F)) (next : Timespec)
      → next.tv_nsec < second_ns
      → (last : Timespec) × (pub_rounds pack a period_ns ms next ≡ some (payloads ms, last))
        × (total_ns last ≡ total_ns next + sent_count ms * period_ns)
        × (last.tv_nsec < second_ns)
  unfolding pub_rounds pub_round
  pub_rounds-payloads [] next small = (next, refl, omega arith, small)
  pub_rounds-payloads (m ∷ ms) next small = elim (Bool-cases m.room) [
    | inl room ↦
        let adv = next_tick-Advances next period_ns in
        let rest = pub_rounds-payloads ms adv.deadline adv.normal in
        (
          rest.0,
          rw (room, adv.returns, ◌>>=◌, rest.1) refl,
          rw room (omega (arith, rest.2, adv.total)),
          rest.3,
        )
    | inr full ↦
        let rest = pub_rounds-payloads ms next small in
        (rest.0, rw (full, ◌>>=◌, rest.1) refl, rw full (omega (arith, rest.2)), rest.3)
  ]
