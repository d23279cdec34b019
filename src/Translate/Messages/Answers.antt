-- ===== src/Translate/Messages/Answers.antt =====
-- Every tool call of a translated conversation is answered.
use ollame.Prelude.{
  ◌+◌, ◌≡◌, inl, inr, refl, sym, ap, ◌∙◌, arith, Bool, true, false, Option, none, some, List, [],
  ◌∷◌, ◌++◌, Bytes, Dict, codes, bytes_eq, bytes_eq_iff, contains, lookup, insert, lookup-insert,
  if◌then◌else◌, Bool-cases, ok, ok_injective,
}
use mathlib.Core.Bool.{false≢true}
use ollame.Translate.Messages.{
  OpenAiToolCall, OpenAiMessage, MessageResult, Message, Settings, text_message, Progress,
  is_consumed, append_message, no_result, synthesize, flush, chosen_call, or_try, orphan,
  is_duplicate, answer, tool_message, duplicate_tool_result,
}
use ollame.Translate.Messages.Waiting.{
  is_tool, call_ids, without, settle, waiting, Unique, settle-snoc, contains-waiting,
  waiting-insert, choose-waiting, choose-none,
}

-- What is due behind the messages so far are the pending calls that are not consumed.
pub record Core (ms : List OpenAiMessage) (consumed : Dict Bytes) (pending : List OpenAiToolCall)
    (all_ids : List Bytes) : Type 0 where
  pub due : settle [] ms ≡ some (waiting consumed pending)
  pub known : (id : Bytes) → is_consumed consumed id ≡ true → contains all_ids id ≡ true
  pub listed : (id : Bytes) → contains (call_ids pending) id ≡ true → contains all_ids id ≡ true
  pub unique : Unique pending

abbrev pub Settled : Progress → Type 0
Settled p = Core p.result.messages p.consumed p.pending p.all_ids

settle-tool :
    (ms : List OpenAiMessage) (m : OpenAiMessage) (due : List Bytes)
    → settle [] ms ≡ some due
    → is_tool m ≡ true
    → contains due m.tool_call_id ≡ true
    → settle [] (ms ++ m ∷ []) ≡ some (without m.tool_call_id due)
settle-tool ms m due h t c =
    let f : settle due (m ∷ []) ≡ some (without m.tool_call_id due) = rw (t, c) refl in
    settle-snoc ms m due h ∙ f

pub settle-other :
    (ms : List OpenAiMessage) (m : OpenAiMessage)
    → settle [] ms ≡ some []
    → is_tool m ≡ false
    → settle [] (ms ++ m ∷ []) ≡ some (call_ids m.tool_calls)
settle-other ms m h t =
    let f : settle [] (m ∷ []) ≡ some (call_ids m.tool_calls) = rw t refl in
    settle-snoc ms m [] h ∙ f

user_role : bytes_eq (codes "user") (codes "tool") ≡ false
unfolding bytes_eq
user_role = refl

pub tool_role : bytes_eq (codes "tool") (codes "tool") ≡ true
unfolding bytes_eq
tool_role = refl

same_first : (id : Bytes) (due : List Bytes) → contains (id ∷ due) id ≡ true
unfolding contains
same_first id due = ground (arith, bytes_eq_iff id id)

without-first :
    (consumed : Dict Bytes) (call : OpenAiToolCall) (pending : List OpenAiToolCall)
    → contains (call_ids pending) call.id ≡ false
    → without call.id (call.id ∷ waiting consumed pending) ≡ waiting consumed pending
without-first consumed call pending h =
    ground (arith, contains-waiting consumed pending call.id h, bytes_eq_iff call.id call.id)

synthesize-settle :
    (consumed : Dict Bytes) (pending : List OpenAiToolCall) (r : MessageResult)
    → Unique pending
    → settle [] r.messages ≡ some (waiting consumed pending)
    → settle [] (synthesize consumed pending r).messages ≡ some []
unfolding synthesize text_message
synthesize-settle consumed [] r u h = h
synthesize-settle consumed (call ∷ pending) r u h =
    by (is_consumed consumed call.id) h (λ r h. synthesize-settle consumed pending r u.1 h)
  where
    more : MessageResult
    more = record (append_message (no_result call.id) r) { synthesized = r.synthesized + 1 }

    by :
        (b : Bool)
        → settle [] r.messages
          ≡ some (if b then waiting consumed pending else call.id ∷ waiting consumed pending)
        → ((r : MessageResult)
            → settle [] r.messages ≡ some (waiting consumed pending)
            → settle [] (synthesize consumed pending r).messages ≡ some [])
        → settle [] (synthesize consumed pending (if b then r else more)).messages ≡ some []
    by true h k = k r h
    by false h k = k more (
        settle-tool r.messages (no_result call.id) (call.id ∷ waiting consumed pending) h tool_role
          (same_first call.id (waiting consumed pending))
        ∙ ap some (without-first consumed call pending u.0))

-- Behind `flush` nothing is due.
pub flush-Settled :
    (cfg : Settings) (p : Progress)
    → bytes_eq cfg.missing_tool_result (codes "synthesize") ≡ true
    → Settled p
    → Settled (flush cfg p)
unfolding flush contains
flush-Settled cfg p m s = rw m (record {
  due = synthesize-settle p.consumed p.pending p.result s.unique s.due;
  known = s.known;
  listed = λ id h. absurd (false≢true h);
  unique = tt;
})

known-insert :
    (consumed : Dict Bytes) (all_ids : List Bytes) (i content : Bytes)
    → ((id : Bytes) → is_consumed consumed id ≡ true → contains all_ids id ≡ true)
    → contains all_ids i ≡ true
    → (id : Bytes) → is_consumed (insert i content consumed) id ≡ true
    → contains all_ids id ≡ true
known-insert consumed all_ids i content k l id h = elim (Bool-cases (bytes_eq i id)) [
  | inl e ↦ let same : i ≡ id = (bytes_eq_iff i id).0 e in rw same at l
  | inr e ↦
      let old : lookup id (insert i content consumed) ≡ lookup id consumed =
        lookup-insert i id content consumed ∙ rw e refl in
      k id (rw (old, is_consumed) at h)
]

pick :
    (P : OpenAiToolCall → Type 0) (a b c : Option OpenAiToolCall) (call : OpenAiToolCall)
    → (a ≡ some call → P call)
    → (b ≡ some call → P call)
    → (c ≡ some call → P call)
    → or_try a (or_try b c) ≡ some call
    → P call
pick P (some x) b c call i j k h = i h
pick P none (some x) c call i j k h = j h
pick P none none c call i j k h = k h

pick_none : (a b c : Option OpenAiToolCall) → or_try a (or_try b c) ≡ none → c ≡ none
pick_none (some x) b c h = absurd cc
pick_none none (some x) c h = absurd cc
pick_none none none c h = h

answer-Settled :
    (cfg : Settings) (message : Message) (mapped : OpenAiMessage) (p q : Progress)
    → is_tool mapped ≡ true
    → Settled p
    → answer cfg message mapped p (chosen_call message p.consumed p.pending) ≡ ok q
    → Settled q
unfolding answer orphan text_message chosen_call
answer-Settled cfg message mapped p q t s =
    by (chosen_call message p.consumed p.pending)
      (λ call h.
        pick
          (λ call.
            (contains (waiting p.consumed p.pending) call.id ≡ true)
            × (contains (call_ids p.pending) call.id ≡ true))
          _ _ _ call (choose-waiting _ p.consumed p.pending call)
          (choose-waiting _ p.consumed p.pending call) (choose-waiting _ p.consumed p.pending call)
          h)
      (λ h. choose-none p.consumed p.pending (pick_none _ _ _ h))
  where
    by :
        (o : Option OpenAiToolCall)
        → ((call : OpenAiToolCall)
            → o ≡ some call
            → (contains (waiting p.consumed p.pending) call.id ≡ true)
              × (contains (call_ids p.pending) call.id ≡ true))
        → (o ≡ none → waiting p.consumed p.pending ≡ [])
        → answer cfg message mapped p o ≡ ok q
        → Settled q
    by none f g h = elim (Bool-cases (bytes_eq cfg.orphan_tool_result (codes "error"))) [
      | inl e ↦ absurd (ground arith)
      | inr e ↦
          let same : record p { result = append_message (orphan message) p.result } ≡ q =
            ok_injective (rw e at h) in
          rw (← same) (record {
            due =
                settle-other p.result.messages (orphan message) (s.due ∙ ap some (g refl)) user_role
                ∙ ap some (sym (g refl));
            known = s.known;
            listed = s.listed;
            unique = s.unique;
          })
    ]
    by (some call) f g h =
        let same : record p {
          result = append_message (record mapped { tool_call_id = call.id }) p.result;
          consumed = insert call.id message.content p.consumed;
        }
            ≡ q =
          ok_injective h in
        let (c, l) = f call refl in
        rw (← same) (record {
          due =
              settle-tool p.result.messages (record mapped { tool_call_id = call.id })
                (waiting p.consumed p.pending) s.due t c
              ∙ ap some (sym (waiting-insert p.consumed p.pending call.id message.content));
          known =
              known-insert p.consumed p.all_ids call.id message.content s.known
                (s.listed call.id l);
          listed = s.listed;
          unique = s.unique;
        })

pub tool_message-Settled :
    (cfg : Settings) (message : Message) (mapped : OpenAiMessage) (p q : Progress)
    → is_tool mapped ≡ true
    → Settled p
    → tool_message cfg message mapped p ≡ ok q
    → Settled q
unfolding tool_message
tool_message-Settled cfg message mapped p q t s h =
    elim (Bool-cases (is_duplicate message p.consumed)) [
      | inl e ↦
          let same : record p {
            result = record p.result { dropped = p.result.dropped ++ duplicate_tool_result ∷ [] };
          }
              ≡ q =
            ok_injective (rw e at h) in
          rw (← same) s
      | inr e ↦ answer-Settled cfg message mapped p q t s (rw e at h)
    ]

-- Nothing is due.
abbrev pub Calm : Progress → Type 0
Calm p = Settled p × (waiting p.consumed p.pending ≡ [])

pub append-Settled :
    (p : Progress) (m : OpenAiMessage)
    → Calm p
    → is_tool m ≡ false
    → m.tool_calls ≡ []
    → Settled (record p { result = append_message m p.result })
append-Settled p m (s, c) t e = record {
  due = settle-other p.result.messages m (s.due ∙ ap some c) t ∙ ap some (ap call_ids e ∙ sym c);
  known = s.known;
  listed = s.listed;
  unique = s.unique;
}
