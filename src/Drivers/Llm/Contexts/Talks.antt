-- ===== src/Drivers/Llm/Contexts/Talks.antt =====
-- A conversation through a handle, against the plain exchange of messages with the model.
use bls_runtime.Prelude.{
  ℕ, ◌≡◌, refl, ap, sym, ◌∙◌, false, none, some, List, [], ◌∷◌, ◌++◌, Bytes, ◌==◌, Option-cases,
  inl, inr,
}
use bls_runtime.Prelude.Assoc.{lookup, insert, nat_eq}
use bls_runtime.Prelude.Result.{Result, ok, err}
use bls_runtime.Drivers.Handles.{insert-same, insert-other}
use bls_runtime.Drivers.Llm.Models.{Urls}
use bls_runtime.Drivers.Llm.Tools.{Services}
use bls_runtime.Drivers.Llm.Contexts.{
  LlmErrorKind, model_completion_failed, Role, user, assistant, Message, with_instance_mut, Backend,
  LlmContext, State, add_message, change, llm_prompt, then_step, ask, record_message, process_tools,
  read_with, llm_read_response,
}

module _ (urls : Urls) (services : Services) (backend : Backend urls) where
  abbrev Handles : Type 0
  Handles = State urls services backend

  abbrev Context : Type 0
  Context = LlmContext urls services backend

  -- No other call is made while a read waits.
  abbrev pub alone : ℕ → Handles → Handles
  alone n s = s

  -- Prompts, each with the read of its response.
  unfoldable pub talk : ℕ → List Bytes → Handles → Result LlmErrorKind (List Bytes) × Handles
  talk handle [] s = (ok [], s)
  talk handle (p ∷ ps) s =
      then_step urls services backend (llm_prompt urls services backend handle p s) λ u. λ s1.
        then_step urls services backend (llm_read_response urls services backend alone handle s1)
          λ answer. λ s2.
            then_step urls services backend (talk handle ps s2)
              λ answers. λ s3. (ok (answer ∷ answers), s3)

  abbrev pub in_front :
      Bytes
      → Result LlmErrorKind (List Bytes) × List Message
      → Result LlmErrorKind (List Bytes) × List Message
  in_front answer (err e, history) = (err e, history)
  in_front answer (ok answers, history) = (ok (answer ∷ answers), history)

  abbrev pub said : Role → Bytes → List Message → List Message
  said role text history = history ++ (record { role = role; content = text } ∷ [])

  -- The exchange itself: each prompt goes behind the history, the model is given the whole of it,
  -- and its text goes behind. The answers, and the history where the exchange ends.
  unfoldable pub converse :
      backend.Provider → List Message → List Bytes → Result LlmErrorKind (List Bytes) × List Message
  converse provider history [] = (ok [], history)
  converse provider history (p ∷ ps) = elim (backend.chat provider (said user p history)) [
    | none ↦ (err model_completion_failed, said user p history)
    | some m ↦
        in_front m.content (converse provider (said assistant m.content (said user p history)) ps)
  ]

  -- A change of a handle that is there.
  pub change_lem :
      (handle : ℕ) (f : Context → Context) (s : Handles) (c : Context)
      → lookup handle s.contexts ≡ some c
      → change urls services backend handle f s
        ≡ (ok tt, record s { contexts = insert handle (f c) s.contexts })
  unfolding change with_instance_mut
  change_lem handle f s c h = rw (h, with_instance_mut, change) refl

  -- The handle has this context, and the others are as they were.
  abbrev Has : ℕ → Context → Handles → Handles → Type 0
  Has handle c before s =
      (lookup handle s.contexts ≡ some c)
      × ((j : ℕ) → (handle == j) ≡ false → lookup j s.contexts ≡ lookup j before.contexts)

  put_Has :
      (handle : ℕ) (c d : Context) (before s : Handles)
      → Has handle c before s
      → Has handle d before (record s { contexts = insert handle d s.contexts })
  put_Has handle c d before s (here, others) = (
    insert-same handle d s.contexts,
    λ j differs. insert-other handle j d s.contexts differs ∙ others j differs,
  )

  pub asks :
      (n : ℕ) (provider : backend.Provider) (messages : List Message) (s : Handles) (m : Message)
      → backend.chat provider messages ≡ some m
      → ask urls services backend alone n provider messages s ≡ (ok m.content, s)
  unfolding ask
  asks n provider messages s m h = rw (h, ask) refl

  asks_in_vain :
      (n : ℕ) (provider : backend.Provider) (messages : List Message) (s : Handles)
      → backend.chat provider messages ≡ none
      → ask urls services backend alone n provider messages s ≡ (err model_completion_failed, s)
  unfolding ask
  asks_in_vain n provider messages s h = rw (h, ask) refl

  -- A read of a conversation without tools, by the answer of the model.
  read_answered :
      (handle : ℕ) (c : Context) (s : Handles) (m : Message)
      → lookup handle s.contexts ≡ some c
      → c.tools_map ≡ none
      → backend.chat c.provider c.messages ≡ some m
      → llm_read_response urls services backend alone handle s ≡ (
        ok m.content,
        record s {
          contexts =
              insert handle (add_message urls services backend assistant m.content c) s.contexts;
        },
      )
  unfolding llm_read_response read_with record_message process_tools
  read_answered handle c s m here plain answer =
      rw
        (
          here,
          llm_read_response,
          read_with,
          asks 0 c.provider c.messages s m answer,
          change_lem handle (add_message urls services backend assistant m.content) s c here,
          plain,
          process_tools,
        )
        refl

  read_failed :
      (handle : ℕ) (c : Context) (s : Handles)
      → lookup handle s.contexts ≡ some c
      → backend.chat c.provider c.messages ≡ none
      → llm_read_response urls services backend alone handle s ≡ (err model_completion_failed, s)
  unfolding llm_read_response read_with
  read_failed handle c s here answer =
      rw (here, llm_read_response, read_with, asks_in_vain 0 c.provider c.messages s answer) refl

  -- The reads behind an answer.
  Behind :
      Bytes
      → Result LlmErrorKind (List Bytes) × Handles
      → Result LlmErrorKind (List Bytes) × Handles
  Behind answer r = then_step urls services backend r λ answers. λ s3. (ok (answer ∷ answers), s3)

  behind_front :
      (answer : Bytes) (r : Result LlmErrorKind (List Bytes)) (s : Handles) (h : List Message)
      → Behind answer (r, s) ≡ ((in_front answer (r, h)).0, s)
  unfolding Behind
  behind_front answer (ok answers) s h = refl
  behind_front answer (err e) s h = refl

  front_history :
      (answer : Bytes) (r : Result LlmErrorKind (List Bytes) × List Message)
      → (in_front answer r).1 ≡ r.1
  front_history answer (ok answers, h) = refl
  front_history answer (err e, h) = refl

  -- Prompts and reads through an open handle whose conversation has no tools, with no other call in
  -- between, are the exchange with the model: the answers are those, in order, and where the model
  -- fails the error and the prompts up to it stay. The conversation behind them is the history of
  -- the exchange, nothing else of the handle changes, and no other handle does.
  pub talk-converse :
      (handle : ℕ) (ps : List Bytes) (c : Context) (before s : Handles)
      → Has handle c before s
      → c.tools_map ≡ none
      → (s' : Handles) × (talk handle ps s ≡ ((converse c.provider c.messages ps).0, s'))
        × Has handle (record c { messages = (converse c.provider c.messages ps).1 }) before s'
  unfolding talk converse llm_prompt Behind add_message
  talk-converse handle [] c before s has plain = (s, refl, has)
  talk-converse handle (p ∷ ps) c before s has plain =
      let c1 : Context = record c { messages = said user p c.messages } in
      let s1 : Handles = record s { contexts = insert handle c1 s.contexts } in
      let has1 : Has handle c1 before s1 = put_Has handle c c1 before s has in
      let asked = change_lem handle (add_message urls services backend user p) s c has.0 in
      elim (Option-cases (backend.chat c.provider (said user p c.messages))) [
        | inl silent ↦
            let read = read_failed handle c1 s1 has1.0 silent in
            (s1, rw (asked, read, silent, talk, converse) refl, rw (silent, converse) has1)
        | inr (m, answered) ↦
            let c2 : Context = record c { messages = said assistant m.content c1.messages } in
            let s2 : Handles = record s1 { contexts = insert handle c2 s1.contexts } in
            let has2 : Has handle c2 before s2 = put_Has handle c1 c2 before s1 has1 in
            let read = read_answered handle c1 s1 m has1.0 plain answered in
            let (s', rest, has') = talk-converse handle ps c2 before s2 has2 plain in
            let r = converse c.provider c2.messages ps in
            let all : talk handle (p ∷ ps) s ≡ ((in_front m.content r).0, s') =
              rw (asked, read, talk)
                (ap (Behind m.content) rest ∙ behind_front m.content r.0 s' r.1) in
            (
              s',
              all ∙ rw (answered, converse) refl,
              rw (answered, converse)
                  (
                    has'.0
                        ∙ (λ i. some (record c { messages = sym (front_history m.content r) i })),
                    has'.1,
                  ),
            )
      ]
