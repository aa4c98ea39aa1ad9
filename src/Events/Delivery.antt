-- ===== src/Events/Delivery.antt =====
-- What a publication on the bus of src/events.cpp calls, after a history of subscriptions.
use fountainer_client_framew.Common.{
  ◌≡◌, refl, sym, ap, ◌∙◌, arith, inl, inr, Bool-cases, ℕ, ◌+◌, ◌%◌, ◌<◌, true, false, none, some,
  List, [], ◌∷◌, ◌++◌, map, ◌==◌, u64_mod, if◌then◌else◌,
}
use fountainer_client_framew.Events.{
  Channel, connection_state, heartbeat, device_alert, ota_status, error_report, protocol_warning,
  unknown, channel_number, Event, channel_of, same_channel, SlotList, drop_slot, add, remove, emit,
  EventBus, new_bus, with_slots, Subscription, attach, reset, unsubscribe, publish,
}
use fountainer_client_framew.Events.History.{
  Occasion, subscribes, resets, perform, run, count, is_reset, kept,
}
use fountainer_client_framew.Events.Slots.{
  survivors, Ascending, place-last, last-Ascending, drop_slot-Ascending, survivors-append,
  survivors-drop_slot, survivors-elsewhere, survivors-none, survivors-subscribes, survivors-end,
  append-nil, append-append,
}

abbrev channel_at : ℕ → Channel
channel_at n =
    if n == 0
    then connection_state
    else if n == 1
    then heartbeat
    else if n == 2
    then device_alert
    else if n == 3
    then ota_status
    else if n == 4
    then error_report
    else if n == 5
    then protocol_warning
    else unknown

channel_at-channel_number : (c : Channel) → channel_at (channel_number c) ≡ c
unfolding channel_number
channel_at-channel_number connection_state = refl
channel_at-channel_number heartbeat = refl
channel_at-channel_number device_alert = refl
channel_at-channel_number ota_status = refl
channel_at-channel_number error_report = refl
channel_at-channel_number protocol_warning = refl
channel_at-channel_number unknown = refl

same_channel-eq : (c d : Channel) → same_channel c d ≡ true → d ≡ c
unfolding same_channel
same_channel-eq c d h =
    let numbers : channel_number d ≡ channel_number c = ground arith in
    sym (channel_at-channel_number d) ∙ ap (λ n. channel_at n) numbers ∙ channel_at-channel_number c

abbrev longer : SlotList → ℕ → SlotList
longer s h = record { slots = s.slots ++ (s.next_token + 1, h) ∷ []; next_token = s.next_token + 1 }

abbrev shorter : ℕ → SlotList → SlotList
shorter token s = record s { slots = drop_slot token s.slots }

attach-same :
    (c d : Channel) (h : ℕ) (bus : EventBus) (s : SlotList)
    → same_channel c d ≡ true
    → bus c ≡ s
    → Ascending 0 s.slots s.next_token
    → s.next_token + 1 < u64_mod
    → (attach d h bus).0 c ≡ longer s h
unfolding attach with_slots add
attach-same c d h bus s same e a small =
    let found : bus d ≡ s = ap bus (same_channel-eq c d same) ∙ e in
    let next : (s.next_token + 1) % u64_mod ≡ s.next_token + 1 = omega arith in
    rw (same, found, next, place-last 0 s.slots s.next_token h a) refl

attach-other :
    (c d : Channel) (h : ℕ) (bus : EventBus)
    → same_channel c d ≡ false
    → (attach d h bus).0 c ≡ bus c
unfolding attach with_slots
attach-other c d h bus other = rw other refl

reset-same :
    (c d : Channel) (token : ℕ) (bus : EventBus) (s : SlotList)
    → same_channel c d ≡ true
    → bus c ≡ s
    → perform (resets (some (d, token))) bus c ≡ shorter token s
unfolding perform reset unsubscribe with_slots remove
reset-same c d token bus s same e =
    let found : bus d ≡ s = ap bus (same_channel-eq c d same) ∙ e in rw (same, found) refl

reset-other :
    (c d : Channel) (token : ℕ) (bus : EventBus)
    → same_channel c d ≡ false
    → perform (resets (some (d, token))) bus c ≡ bus c
unfolding perform reset unsubscribe with_slots
reset-other c d token bus other = rw other refl

kept-same :
    (c d : Channel) (h n : ℕ) (os : List Occasion)
    → same_channel c d ≡ true
    → kept c n (subscribes d h ∷ os)
      ≡ (if is_reset c (n + 1) os then [] else h ∷ []) ++ kept c (n + 1) os
unfolding kept
kept-same c d h n os same = elim (Bool-cases (is_reset c (n + 1) os)) [
  | inl gone ↦ rw (same, gone) refl
  | inr live ↦ rw (same, live) refl
]

kept-other :
    (c d : Channel) (h n : ℕ) (os : List Occasion)
    → same_channel c d ≡ false
    → kept c n (subscribes d h ∷ os) ≡ kept c n os
unfolding kept
kept-other c d h n os other = rw other refl

count-same :
    (c d : Channel) (h : ℕ) (os : List Occasion)
    → same_channel c d ≡ true
    → count c (subscribes d h ∷ os) ≡ count c os + 1
unfolding count
count-same c d h os same = rw same refl

count-other :
    (c d : Channel) (h : ℕ) (os : List Occasion)
    → same_channel c d ≡ false
    → count c (subscribes d h ∷ os) ≡ count c os
unfolding count
count-other c d h os other = rw other refl

kept-resets :
    (c : Channel) (n : ℕ) (s : Subscription) (os : List Occasion)
    → kept c n (resets s ∷ os) ≡ kept c n os
unfolding kept
kept-resets c n s os = refl

count-resets :
    (c : Channel) (s : Subscription) (os : List Occasion) → count c (resets s ∷ os) ≡ count c os
unfolding count
count-resets c s os = refl

run-step :
    (o : Occasion) (os : List Occasion) (bus : EventBus) → run (o ∷ os) bus ≡ run os (perform o bus)
unfolding run
run-step o os bus = refl

perform-subscribes :
    (c : Channel) (h : ℕ) (bus : EventBus) → perform (subscribes c h) bus ≡ (attach c h bus).0
unfolding perform
perform-subscribes c h bus = refl

perform-none : (bus : EventBus) → perform (resets none) bus ≡ bus
unfolding perform reset
perform-none bus = refl

emit-run_nil :
    (c : Channel) (bus : EventBus) (s : SlotList)
    → bus c ≡ s
    → emit (run [] bus c) ≡ survivors c [] s.slots ++ kept c s.next_token []
unfolding run emit kept
emit-run_nil c bus s e = rw (e, append-nil, survivors-end) refl

-- From a bus with ascending tokens: what the slots keep, and then what the history adds.
emit-run :
    (c : Channel) (os : List Occasion) (bus : EventBus) (s : SlotList)
    → bus c ≡ s
    → Ascending 0 s.slots s.next_token
    → s.next_token + count c os < u64_mod
    → emit (run os bus c) ≡ survivors c os s.slots ++ kept c s.next_token os
emit-run c [] bus s e a small = emit-run_nil c bus s e
emit-run c (subscribes d h ∷ os) bus s e a small = elim (Bool-cases (same_channel c d)) [
  | inl same ↦
      let sum : (s.next_token + 1) + count c os < u64_mod =
        omega (arith, count-same c d h os same) in
      let rest =
        emit-run c os (attach d h bus).0 (longer s h)
          (attach-same c d h bus s same e a (omega (arith, sum)))
          (last-Ascending 0 s.slots s.next_token h a) sum in
      rw
        (
          run-step,
          perform-subscribes,
          rest,
          survivors-append,
          survivors-subscribes,
          kept-same c d h s.next_token os same,
          append-append,
        )
        refl
  | inr other ↦
      let rest =
        emit-run c os (attach d h bus).0 s (attach-other c d h bus other ∙ e) a
          (omega (arith, count-other c d h os other)) in
      rw
        (
          run-step,
          perform-subscribes,
          rest,
          survivors-subscribes,
          kept-other c d h s.next_token os other,
        )
        refl
]
emit-run c (resets none ∷ os) bus s e a small =
    let rest = emit-run c os bus s e a (omega (arith, count-resets c none os)) in
    rw (run-step, perform-none, rest, survivors-none, kept-resets) refl
emit-run c (resets (some (d, token)) ∷ os) bus s e a small =
    let less : s.next_token + count c os < u64_mod =
      omega (arith, count-resets c (some (d, token)) os) in
    elim (Bool-cases (same_channel c d)) [
      | inl same ↦
          let rest =
            emit-run c os (perform (resets (some (d, token))) bus) (shorter token s)
              (reset-same c d token bus s same e)
              (drop_slot-Ascending token 0 s.slots s.next_token a) less in
          rw
            (
              run-step,
              rest,
              survivors-drop_slot c d token 0 os s.slots s.next_token same a,
              kept-resets,
            )
            refl
      | inr other ↦
          let rest =
            emit-run c os (perform (resets (some (d, token))) bus) s
              (reset-other c d token bus other ∙ e) a less in
          rw (run-step, rest, survivors-elsewhere c d token os s.slots other, kept-resets) refl
    ]

-- After any history of a new bus, with fewer than 2^64 subscriptions to the event's kind, a publication
-- calls with the event exactly the handlers that were subscribed to its kind and whose subscription was not reset
-- since, each once per subscription, in the order in which they were subscribed.
pub publish-kept :
    (os : List Occasion) (event : Event)
    → count (channel_of event) os < u64_mod
    → publish event (run os new_bus)
      ≡ map (λ handler. (handler, event)) (kept (channel_of event) 0 os)
unfolding publish new_bus survivors
publish-kept os event small =
    ap (λ handlers. map (λ handler. (handler, event)) handlers)
      (emit-run (channel_of event) os new_bus (new_bus (channel_of event)) refl (omega arith)
        (omega arith))
