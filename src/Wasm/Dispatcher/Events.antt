-- ===== src/Wasm/Dispatcher/Events.antt =====
-- The events that a dispatch commits (`filterEvents`, `sortEventAttributes`).
use bignftd.Base.{
  Text, codes, ◌≡◌, Bool, true, false, Option, none, some, List, [], ◌∷◌, ◌++◌, map, text_eq, All,
  Bool-cases, inl, inr,
}
use bignftd.Chain.Outcome.{Result, ok, err, panic}
use bignftd.Chain.Keeps.{Keeps, Keeps-pure, Keeps-bind}
use bignftd.Wasm.Dispatcher.{
  Host, Ctx, Event, Response, Reply, SubMsg, SubMsgResult, is_known, skips_success, skips_failure,
  Action, filter_events, sort_event, order_events, run_cached, call_back, replied, after_success,
  after_failure, settle, dispatch_submessage, submessage_loop, dispatch_submessages,
}

-- An event that is not of the type "message".
abbrev pub IsOther : Event → Type 0
IsOther e = text_eq e.kind (codes "message") ≡ false

All-append : (P : Event → Type 0) (xs ys : List Event) → All P xs → All P ys → All P (xs ++ ys)
All-append P [] ys h k = k
All-append P (x ∷ xs) ys h k = (h.0, All-append P xs ys h.1 k)

filter_events-All : (es : List Event) → All IsOther (filter_events es)
unfolding filter_events
filter_events-All [] = tt
filter_events-All (e ∷ es) = elim (Bool-cases (text_eq e.kind (codes "message"))) [
  | inl b ↦ rw b (filter_events-All es)
  | inr b ↦ rw b (b, filter_events-All es)
]

sort_event-All : (es : List Event) → All IsOther es → All IsOther (map sort_event es)
unfolding sort_event
sort_event-All [] h = tt
sort_event-All (e ∷ es) h = (h.0, sort_event-All es h.1)

module _ (host : Host) (dispatch_msg : host.Msg → Action host Response)
    (reply : Reply → Action host (Option Text)) where
  -- No event of the context is of the type "message".
  abbrev pub NoMessageEvent : Ctx host → Type 0
  NoMessageEvent c = All IsOther c.events

  order_events-All :
      (b : Bool) (es : List Event)
      → All IsOther es
      → All IsOther (order_events host dispatch_msg reply b es)
  order_events-All true es h = sort_event-All es h
  order_events-All false es h = h

  replied-NoMessageEvent :
      (rsp : Option Text) (r : Result host.Error (Option Text) × Ctx host)
      → NoMessageEvent r.1
      → NoMessageEvent (replied host dispatch_msg reply rsp r).1
  unfolding replied
  replied-NoMessageEvent rsp (ok none, c) h = h
  replied-NoMessageEvent rsp (ok (some bz), c) h = h
  replied-NoMessageEvent rsp (err e, c) h = h
  replied-NoMessageEvent rsp (panic p, c) h = h

  module _ (quiet : (r : Reply) → Keeps NoMessageEvent (reply r)) where
    call_back-NoMessageEvent :
        (m : SubMsg host) (result : SubMsgResult) (rsp : Option Text) (c : Ctx host)
        → NoMessageEvent c
        → NoMessageEvent (call_back host dispatch_msg reply m result rsp c).1
    unfolding call_back
    call_back-NoMessageEvent m result rsp c h =
        let answer : Reply = record { id = m.id; result = result; payload = m.payload } in
        replied-NoMessageEvent rsp (reply answer c) ((quiet answer).at c h)

    settle-NoMessageEvent :
        (m : SubMsg host) (rsp : Option Text) (r : Result host.Error Response × Ctx host)
        (c : Ctx host)
        → NoMessageEvent c
        → NoMessageEvent (settle host dispatch_msg reply m rsp r c).1
    unfolding settle after_success after_failure
    settle-NoMessageEvent m rsp (ok a, sub) c h =
        let events = filter_events (sub.events ++ a.events) in
        let ordered = order_events host dispatch_msg reply (host.is_wasm m.msg) events in
        let fine : All IsOther (c.events ++ ordered) = All-append IsOther c.events ordered h (
          order_events-All (host.is_wasm m.msg) events
            (filter_events-All (sub.events ++ a.events))) in
        elim (Bool-cases (skips_success m.reply_on)) [
          | inl b ↦ rw b fine
          | inr b ↦ rw b (call_back-NoMessageEvent m _ rsp _ fine)
        ]
    settle-NoMessageEvent m rsp (err e, sub) c h = elim (Bool-cases (skips_failure m.reply_on)) [
      | inl b ↦ rw b h
      | inr b ↦ rw b (call_back-NoMessageEvent m _ rsp _ h)
    ]
    settle-NoMessageEvent m rsp (panic p, sub) c h = h

    Keeps-dispatch_submessage :
        (m : SubMsg host) (rsp : Option Text)
        → Keeps NoMessageEvent (dispatch_submessage host dispatch_msg reply m rsp)
    unfolding dispatch_submessage
    Keeps-dispatch_submessage m rsp = record {
      at = λ c h. elim (Bool-cases (is_known m.reply_on)) [
        | inl b ↦ rw b (settle-NoMessageEvent m rsp (run_cached host dispatch_msg reply m c) c h)
        | inr b ↦ rw b h
      ];
    }

    Keeps-submessage_loop :
        (msgs : List (SubMsg host)) (rsp : Option Text)
        → Keeps NoMessageEvent (submessage_loop host dispatch_msg reply msgs rsp)
    unfolding submessage_loop
    Keeps-submessage_loop [] rsp = Keeps-pure rsp
    Keeps-submessage_loop (m ∷ msgs) rsp =
        Keeps-bind (dispatch_submessage host dispatch_msg reply m rsp)
          (λ rsp'. submessage_loop host dispatch_msg reply msgs rsp')
          (Keeps-dispatch_submessage m rsp) (λ rsp'. Keeps-submessage_loop msgs rsp')

    -- In a context with no event of the type "message", if the replies of the contract emit none, then
    -- the dispatch of its submessages leaves a context with none, whatever the submessages emit and
    -- however the dispatch ends.
    pub dispatch_submessages-NoMessageEvent :
        (msgs : List (SubMsg host)) (c : Ctx host)
        → NoMessageEvent c
        → NoMessageEvent (dispatch_submessages host dispatch_msg reply msgs c).1
    unfolding dispatch_submessages
    dispatch_submessages-NoMessageEvent msgs c h = (Keeps-submessage_loop msgs none).at c h
