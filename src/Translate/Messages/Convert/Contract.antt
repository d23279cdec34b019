-- ===== src/Translate/Messages/Convert/Contract.antt =====
-- The loop over the messages, and the contract of its result.
use mathlib.Core.Bool.{false≢true}
use ollame.Prelude.{
  ℕ, ◌+◌, ◌≡◌, inl, inr, refl, sym, ap, ◌∙◌, Bool, true, false, not, ◌&&◌, some, List, [], ◌∷◌,
  ◌++◌, Bytes, codes, to_lower, bytes_eq, bytes_eq_iff, contains, lookup, if◌then◌else◌, Bool-cases,
  ok, ok_injective, bind_ok,
}
use ollame.Translate.Messages.{
  join_parts, OpenAiMessage, MessageResult, Message, Settings, Survey, sort_messages, head_messages,
  survey, text_message, Progress, append_message, flush, tool_message, images_non_user,
}
use ollame.Translate.Messages.Waiting.{is_tool, settle}
use ollame.Translate.Messages.Answers.{
  Settled, Calm, flush-Settled, tool_message-Settled, append-Settled,
}
use ollame.Translate.Messages.Convert.{
  image_urls, user_images, user_message, assistant_message, drop_images, has_images, by_role,
  next_message, next_messages, messages,
}
use ollame.Translate.Messages.Convert.Whole.{assistant-Settled, err≢ok}

drop_images-Settled :
    (b : Bool) (message : Message) (p : Progress) → Settled p → Settled (drop_images b message p)
drop_images-Settled b message p s = by (b && has_images message)
  where
    dropped : Progress
    dropped = record p {
      result = record p.result { dropped = p.result.dropped ++ images_non_user ∷ [] };
    }

    by : (c : Bool) → Settled (if c then dropped else p)
    by true = s
    by false = s

drop_images-Calm :
    (b : Bool) (message : Message) (p : Progress) → Calm p → Calm (drop_images b message p)
drop_images-Calm b message p s = by (b && has_images message)
  where
    dropped : Progress
    dropped = record p {
      result = record p.result { dropped = p.result.dropped ++ images_non_user ∷ [] };
    }

    by : (c : Bool) → Calm (if c then dropped else p)
    by true = s
    by false = s

user_role : bytes_eq (codes "user") (codes "tool") ≡ false
unfolding bytes_eq
user_role = refl

assistant_role : bytes_eq (codes "assistant") (codes "tool") ≡ false
unfolding bytes_eq
assistant_role = refl

other_role :
    (role name : Bytes)
    → bytes_eq role name ≡ true
    → bytes_eq name (codes "tool") ≡ false
    → bytes_eq role (codes "tool") ≡ false
other_role role name e n = ap (λ r. bytes_eq r (codes "tool")) ((bytes_eq_iff role name).0 e) ∙ n

head_messages-settle : (cfg : Settings) (s : Survey) → settle [] (head_messages cfg s) ≡ some []
unfolding head_messages text_message bytes_eq
head_messages-settle cfg s =
    by (sort_messages cfg && s.has_system) (not s.has_system && not (bytes_eq cfg.system []))
  where
    by :
        (a b : Bool)
        → settle [] (
            (if a then text_message (codes "system") (join_parts s.system_parts) ∷ [] else [])
            ++ (if b then text_message (codes "system") cfg.system ∷ [] else []))
          ≡ some []
    by true true = refl
    by true false = refl
    by false true = refl
    by false false = refl

module _ (sha256 : Bytes → Bytes) (detect_content_type : Bytes → Bytes) where
  user_images-same :
      (cfg : Settings) (message : Message) (mapped m : OpenAiMessage)
      → user_images sha256 detect_content_type cfg message mapped ≡ ok m
      → (mapped.role ≡ m.role) × (mapped.tool_calls ≡ m.tool_calls)
  unfolding user_images
  user_images-same cfg message mapped m h =
      elim (Bool-cases (cfg.strict_capabilities && cfg.no_vision)) [
        | inl e ↦ absurd (err≢ok (rw e at h))
        | inr e ↦
            let (urls, _, last) =
              bind_ok (image_urls sha256 detect_content_type cfg.default_image_mime message.images)
                _ (rw e at h) in
            let same = ok_injective last in (ap (λ x. x.role) same, ap (λ x. x.tool_calls) same)
      ]

  user_message-Settled :
      (cfg : Settings) (message : Message) (mapped : OpenAiMessage) (p q : Progress)
      → Calm p
      → is_tool mapped ≡ false
      → mapped.tool_calls ≡ []
      → user_message sha256 detect_content_type cfg message mapped p ≡ ok q
      → Settled q
  unfolding user_message
  user_message-Settled cfg message mapped p q c t n h =
      let (m, found, last) =
        bind_ok
          (if has_images message
            then user_images sha256 detect_content_type cfg message mapped
            else ok mapped)
          _ h in
      let (role, calls) = by (has_images message) m found in
      let same : record p { result = append_message m p.result } ≡ q = ok_injective last in
      rw (← same)
        (append-Settled p m c (ap (λ r. bytes_eq r (codes "tool")) (sym role) ∙ t) (sym calls ∙ n))
    where
      by :
          (b : Bool) (m : OpenAiMessage)
          → (if b then user_images sha256 detect_content_type cfg message mapped else ok mapped)
            ≡ ok m
          → (mapped.role ≡ m.role) × (mapped.tool_calls ≡ m.tool_calls)
      by true m h = user_images-same cfg message mapped m h
      by false m h =
          let same = ok_injective h in (ap (λ x. x.role) same, ap (λ x. x.tool_calls) same)

  by_role-Settled :
      (cfg : Settings) (index : ℕ) (role : Bytes) (message : Message) (p q : Progress)
      → Settled p
      → (bytes_eq role (codes "tool") ≡ false → Calm p)
      → by_role sha256 detect_content_type cfg index role message p ≡ ok q
      → Settled q
  unfolding by_role text_message
  by_role-Settled cfg index role message p q s c =
      by (bytes_eq role (codes "user")) (bytes_eq role (codes "assistant"))
        (bytes_eq role (codes "tool")) refl refl refl
    where
      mapped : OpenAiMessage
      mapped = text_message role message.content

      r : Progress
      r = drop_images (not (bytes_eq role (codes "user"))) message p

      calm : bytes_eq role (codes "tool") ≡ false → Calm r
      calm t = drop_images-Calm (not (bytes_eq role (codes "user"))) message p (c t)

      by :
          (u a t : Bool)
          → bytes_eq role (codes "user") ≡ u
          → bytes_eq role (codes "assistant") ≡ a
          → bytes_eq role (codes "tool") ≡ t
          → (if u
              then user_message sha256 detect_content_type cfg message mapped r
              else if a
              then assistant_message sha256 detect_content_type cfg index message mapped r
              else if t
              then tool_message cfg message mapped r
              else ok (record r { result = append_message mapped r.result }))
            ≡ ok q
          → Settled q
      by true a t eu ea et h =
          let n = other_role role (codes "user") eu user_role in
          user_message-Settled cfg message mapped r q (calm n) n refl h
      by false true t eu ea et h =
          let n = other_role role (codes "assistant") ea assistant_role in
          assistant-Settled sha256 detect_content_type cfg index message mapped r q (calm n) n h
      by false false true eu ea et h =
          tool_message-Settled cfg message mapped r q et
            (drop_images-Settled (not (bytes_eq role (codes "user"))) message p s) h
      by false false false eu ea et h =
          let same : record r { result = append_message mapped r.result } ≡ q = ok_injective h in
          rw (← same) (append-Settled r mapped (calm et) et refl)

  next_message-Settled :
      (cfg : Settings) (index : ℕ) (message : Message) (p q : Progress)
      → bytes_eq cfg.missing_tool_result (codes "synthesize") ≡ true
      → Settled p
      → next_message sha256 detect_content_type cfg index message p ≡ ok q
      → Settled q
  unfolding next_message flush
  next_message-Settled cfg index message p q m s =
      by (sort_messages cfg && bytes_eq role (codes "system")) (bytes_eq role (codes "tool")) refl
    where
      role : Bytes
      role = to_lower message.role

      flushed : Calm (flush cfg p)
      flushed = (flush-Settled cfg p m s, refl)

      by :
          (b t : Bool)
          → bytes_eq role (codes "tool") ≡ t
          → (if b
              then ok (drop_images true message p)
              else by_role sha256 detect_content_type cfg index role message
                  (if not t then flush cfg p else p))
            ≡ ok q
          → Settled q
      by true t e h =
          let same : drop_images true message p ≡ q = ok_injective h in
          rw (← same) (drop_images-Settled true message p s)
      by false true e h =
          by_role-Settled cfg index role message p q s (λ f. absurd (false≢true (sym f ∙ e))) h
      by false false e h =
          by_role-Settled cfg index role message (flush cfg p) q flushed.0 (λ f. flushed) h

  next_messages-Settled :
      (cfg : Settings) (index : ℕ) (input : List Message) (p q : Progress)
      → bytes_eq cfg.missing_tool_result (codes "synthesize") ≡ true
      → Settled p
      → next_messages sha256 detect_content_type cfg index input p ≡ ok q
      → Settled q
  unfolding next_messages
  next_messages-Settled cfg index [] p q m s h = let same : p ≡ q = ok_injective h in rw (← same) s
  next_messages-Settled cfg index (message ∷ input) p q m s h =
      let (r, first, later) =
        bind_ok (next_message sha256 detect_content_type cfg index message p) _ h in
      next_messages-Settled cfg (index + 1) input r q m
        (next_message-Settled cfg index message p r m s first) later

  -- Where missing results are synthesized, every tool message of a translated conversation answers
  -- a call of the assistant message before it that is not answered yet, and all calls are answered
  -- before any other message comes, and at the end.
  pub messages-settle :
      (cfg : Settings) (input : List Message) (r : MessageResult)
      → cfg.missing_tool_result ≡ codes "synthesize"
      → messages sha256 detect_content_type cfg input ≡ ok r
      → settle [] r.messages ≡ some []
  unfolding messages lookup contains flush
  messages-settle cfg input r m h =
      let missing = (bytes_eq_iff cfg.missing_tool_result (codes "synthesize")).1 m in
      let (s, _, later) = bind_ok (survey cfg input nothing_seen) _ h in
      let (p, found, last) =
        bind_ok (next_messages sha256 detect_content_type cfg 0 input (start cfg s)) _ later in
      let settled =
        next_messages-Settled cfg 0 input (start cfg s) p missing (started cfg s) found in
      let same : (flush cfg p).result ≡ r = ok_injective last in
      rw (← same) (flush-Settled cfg p missing settled).due
    where
      nothing_seen : Survey
      nothing_seen = record { system_parts = []; has_system = false; image_count = 0 }

      start : Settings → Survey → Progress
      start cfg s = record {
        result = record { messages = head_messages cfg s; dropped = []; synthesized = 0 };
        pending = [];
        consumed = [];
        all_ids = [];
      }

      started : (cfg : Settings) (s : Survey) → Settled (start cfg s)
      started cfg s = record {
        due = head_messages-settle cfg s;
        known = λ id k. absurd (false≢true k);
        listed = λ id k. absurd (false≢true k);
        unique = tt;
      }
