-- ===== src/Gateway/Message/Receive.antt =====
-- What on_message of src/core/telemetry_gateway.c queues, and that a published snapshot arrives whole.
use telemetry_platform_testb.Base.{
  same_string, ◌>>=◌, ℕ, ◌+◌, ◌%◌, ◌^◌, ◌<◌, ◌≤◌, ◌≡◌, ◌≢◌, Option-cases, inl, inr, refl, ap, ap₂,
  ◌∙◌, sym, subst, Bool, true, false, not, List, [], ◌∷◌, ◌++◌, Option, none, some, arith, length,
  append-nil, ◌&&◌, if◌then◌else◌,
}
use telemetry_platform_testb.Types.{CString, TelemetryMsg, TelemetryState}
use telemetry_platform_testb.Cache.{TelemetryCache}
use telemetry_platform_testb.Publisher.{PubArgs, build_message}
use telemetry_platform_testb.Gateway.Queue.{Queue, queue_push}
use telemetry_platform_testb.Gateway.Queue.Refine.{IsQueue, queue_push-IsQueue, queue_push-lost}
use telemetry_platform_testb.Gateway.Message.Names.{
  IsFitting, snapshot_sample, to_sample-build_message,
}
use telemetry_platform_testb.Gateway.Message.{
  topic_telemetry_state, to_sample, copy_raw, Received, Intake, Given, count_received, store,
  on_topic, on_message,
}

module _ {F : Type 0} where
  -- A call that leaves `new` queued behind `xs`, and goes on as it was told to run.
  pub record Queues (running : Bool) (xs new : List (TelemetryState F)) (result : Option (Intake F))
      : Type 0 where
    pub after : Intake F
    pub returns : result ≡ some after
    pub holds : IsQueue after.queue (xs ++ new)
    pub runs : after.running ≡ running

  nothing_new :
      (g : Intake F) (xs : List (TelemetryState F))
      → IsQueue g.queue xs
      → Queues g.running xs [] (some g)
  nothing_new g xs v = record {
    after = g;
    returns = refl;
    holds = subst (λ ys. IsQueue g.queue ys) (sym (append-nil xs)) v;
    runs = refl;
  }

module _ {F : Type 0} (zero_f : F) (unpack : List ℕ → Option (TelemetryMsg F)) where
  abbrev made : Given → List ℕ → TelemetryMsg F → TelemetryState F
  made e payload st = copy_raw e.raw_room payload (to_sample zero_f e.now_realtime_ns st)

  -- The samples made of an unpacked message and a node: one if both are there, else none.
  abbrev made_of : Given → List ℕ → Option (TelemetryMsg F) → Option ℕ → List (TelemetryState F)
  made_of e payload none slot = []
  made_of e payload (some st) none = []
  made_of e payload (some st) (some n) = made e payload st ∷ []

  abbrev is_state_topic : Option CString → Bool
  is_state_topic none = false
  is_state_topic (some t) = same_string t topic_telemetry_state

  -- What a callback is to queue: the sample made of a message on the state topic that unpacks, while
  -- the gateway runs and calloc has a node, and nothing otherwise.
  abbrev pub admitted : Bool → Given → Received → List (TelemetryState F)
  admitted running e msg =
      if is_state_topic msg.topic && running
      then made_of e msg.payload (unpack msg.payload) e.node
      else []

  store-Queues :
      (r : Intake F) (e : Given) (payload : List ℕ) (xs : List (TelemetryState F))
      (o : Option (TelemetryMsg F)) (slot : Option ℕ)
      → e.node ≡ slot
      → IsQueue r.queue xs
      → ((n : ℕ) → slot ≡ some n → r.queue.cell n ≡ none)
      → length xs + 1 < 2 ^ 64
      → Queues r.running xs (made_of e payload o slot) (store zero_f unpack r e payload o)
  unfolding store
  store-Queues r e payload xs none slot h v fresh room = nothing_new r xs v
  store-Queues r e payload xs (some st) none h v fresh room =
      subst (λ o. Queues r.running xs [] (o >>= λ q. some (record r { queue = q })))
        (sym (
          ap (λ n. queue_push r.queue n (made e payload st)) h
          ∙ queue_push-lost r.queue (made e payload st)))
        (nothing_new r xs v)
  store-Queues r e payload xs (some st) (some n) h v fresh room =
      let pushed = queue_push-IsQueue r.queue n (made e payload st) xs v (fresh n refl) room in
      record {
        after = record r { queue = pushed.0 };
        returns =
            ap
              (λ o. queue_push r.queue o (made e payload st) >>= λ q. some (record r { queue = q }))
              h
            ∙ ap (λ o. o >>= λ q. some (record r { queue = q })) pushed.1;
        holds = pushed.2;
        runs = refl;
      }

  length-made_of :
      (e : Given) (payload : List ℕ) (o : Option (TelemetryMsg F)) (slot : Option ℕ)
      → length (made_of e payload o slot) ≤ 1
  length-made_of e payload none slot = omega arith
  length-made_of e payload (some st) none = omega arith
  length-made_of e payload (some st) (some n) = omega arith

  pub length-admitted :
      (running : Bool) (e : Given) (msg : Received) → length (admitted running e msg) ≤ 1
  length-admitted running e msg =
      ground (arith, length-made_of e msg.payload (unpack msg.payload) e.node)

  -- A published snapshot that arrives while the gateway runs, with a node to hold it, is to be queued.
  pub admitted-snapshot :
      (e : Given) (msg : Received) (a : PubArgs) (c : TelemetryCache F) (sent : ℕ)
      → msg.topic ≡ some topic_telemetry_state
      → e.node ≢ none
      → IsFitting a
      → unpack msg.payload ≡ some (build_message a c sent)
      → admitted true e msg
        ≡ copy_raw e.raw_room msg.payload (snapshot_sample zero_f e.now_realtime_ns a c sent) ∷ []
  unfolding same_string
  admitted-snapshot e msg a c sent topic noded fits good = elim (Option-cases e.node) [
    | inl missing ↦ absurd (noded missing)
    | inr (n, there) ↦
        ap
          (λ t.
            if is_state_topic t && true
            then made_of e msg.payload (unpack msg.payload) e.node
            else [])
          topic
        ∙ ap₂ (made_of e msg.payload) good there
        ∙ ap (λ s. copy_raw e.raw_room msg.payload s ∷ [])
            (to_sample-build_message zero_f e.now_realtime_ns a c sent fits)
  ]

  -- Every call of the callback returns with the queue intact: behind what was queued stands exactly
  -- what the message is to queue, one sample if the message is on the state topic and unpacks, the
  -- gateway runs and a node is there to hold it, and nothing otherwise.
  pub on_message-Queues :
      (g : Intake F) (e : Given) (msg : Received) (xs : List (TelemetryState F))
      → IsQueue g.queue xs
      → ((n : ℕ) → e.node ≡ some n → g.queue.cell n ≡ none)
      → length xs + 1 < 2 ^ 64
      → Queues g.running xs (admitted g.running e msg) (on_message zero_f unpack g e msg)
  unfolding on_message on_topic count_received
  on_message-Queues g e msg xs v fresh room = by_topic msg.topic
    where
      guarded :
          (runs same : Bool)
          → g.running ≡ runs
          → Queues g.running xs
              (if same && runs then made_of e msg.payload (unpack msg.payload) e.node else [])
              (if not runs
                then some g
                else if not same
                then some g
                else store zero_f unpack
                    (count_received g msg.payload)
                    e
                    msg.payload
                    (unpack msg.payload))
      guarded false false r = nothing_new g xs v
      guarded false true r = nothing_new g xs v
      guarded true false r = nothing_new g xs v
      guarded true true r =
          store-Queues (count_received g msg.payload) e msg.payload xs (unpack msg.payload) e.node
            refl v fresh room

      by_topic :
          (topic : Option CString)
          → Queues g.running xs
              (admitted g.running e (record msg { topic = topic }))
              (on_message zero_f unpack g e (record msg { topic = topic }))
      by_topic none = nothing_new g xs v
      by_topic (some t) = guarded g.running (same_string t topic_telemetry_state) refl

  -- A snapshot that the simulator publishes arrives whole: when the payload unpacks to the message
  -- built from it, exactly one sample is queued, behind all others, with every reading, number and
  -- name of the snapshot and the raw copy, and the message and its bytes are counted.
  pub publish-receive :
      (g : Intake F) (e : Given) (payload : List ℕ) (xs : List (TelemetryState F)) (a : PubArgs)
      (c : TelemetryCache F) (sent n : ℕ)
      → IsQueue g.queue xs
      → length xs + 1 < 2 ^ 64
      → g.running ≡ true
      → e.node ≡ some n
      → g.queue.cell n ≡ none
      → IsFitting a
      → unpack payload ≡ some (build_message a c sent)
      → (r : Intake F) × (on_message zero_f unpack g e
            (record { topic = some topic_telemetry_state; payload = payload })
          ≡ some r)
        × IsQueue r.queue (
            xs
            ++ copy_raw e.raw_room payload (snapshot_sample zero_f e.now_realtime_ns a c sent) ∷ [])
        × (r.rx_msgs ≡ (g.rx_msgs + 1) % 2 ^ 64)
        × (r.rx_bytes ≡ (g.rx_bytes + length payload) % 2 ^ 64)
  unfolding on_message count_received
  publish-receive g e payload xs a c sent n v room runs node free fits good =
      let sample =
        copy_raw e.raw_room payload (snapshot_sample zero_f e.now_realtime_ns a c sent) in
      let counted = count_received g payload in
      let pushed = queue_push-IsQueue g.queue n sample xs v free room in
      let made_is =
        ap (copy_raw e.raw_room payload)
          (to_sample-build_message zero_f e.now_realtime_ns a c sent fits) in
      let finish = λ (q : Queue (TelemetryState F)). some (record counted { queue = q }) in
      (
        record counted { queue = pushed.0 },
        ap (λ b. if not b then some g else store zero_f unpack counted e payload (unpack payload))
              runs
            ∙ ap (store zero_f unpack counted e payload) good
            ∙ ap₂ (λ o s. queue_push g.queue o s >>= finish) node made_is
            ∙ ap (λ o. o >>= finish) pushed.1,
        pushed.2,
        refl,
        refl,
      )
