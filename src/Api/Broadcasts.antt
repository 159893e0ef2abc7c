-- ===== src/Api/Broadcasts.antt =====
-- Whom a push reaches, in src/xmpp_p2p_chat/connection_service/api.py.
use serverless_xmpp.Base.{
  ℕ, String, Bool, true, false, not, ◌&&◌, ◌||◌, ◌≡◌, refl, ap, sym, ◌∙◌, arith, List, [], ◌∷◌,
  ◌++◌, truthy, select, inl, inr, Bool-cases,
}
use mathlib.Core.List.{append-nil, append_assoc}
use serverless_xmpp.Models.JsonData.{Json}
use serverless_xmpp.Api.{
  RpcServer, has, discard, discard_all, send, send_all, broadcast, event_payload,
}

-- Pushes are for everyone, or for those who have shown the token.
unfoldable pub may_hear : String → List ℕ → ℕ → Bool
may_hear token authenticated w = not (truthy token) || has w authenticated

unfoldable pub frames : Json → List ℕ → List (ℕ × Json)
frames payload [] = []
frames payload (w ∷ clients) = (w, payload) ∷ frames payload clients

module _ (open_ : ℕ → Bool) (token : String) where
  unfoldable pub reached : List ℕ → List ℕ → List ℕ
  unfolding may_hear
  reached authenticated clients = select (λ w. may_hear token authenticated w && open_ w) clients

  unfoldable pub lost : List ℕ → List ℕ → List ℕ
  unfolding may_hear
  lost authenticated clients = select (λ w. may_hear token authenticated w && not (open_ w)) clients

abbrev pub without : List ℕ → List ℕ → List ℕ
without dead clients = select (λ c. not (has c dead)) clients

discard-select :
    (w : ℕ) (dead clients : List ℕ)
    → select (λ c. not (has c dead)) (discard w clients)
      ≡ select (λ c. not (has c (w ∷ dead))) clients
unfolding discard
discard-select w dead [] = refl
discard-select w dead (c ∷ clients) = ground (arith, discard-select w dead clients)

select_all : (clients : List ℕ) → select (λ c. not (has c [])) clients ≡ clients
select_all [] = refl
select_all (c ∷ clients) = ap (◌∷◌ c) (select_all clients)

discard_all_lem :
    (dead clients : List ℕ) → discard_all dead clients ≡ select (λ c. not (has c dead)) clients
unfolding discard_all
discard_all_lem [] clients = sym (select_all clients)
discard_all_lem (w ∷ dead) clients =
    discard_all_lem dead (discard w clients) ∙ discard-select w dead clients

module _ {S : Type 0} (open_ : ℕ → Bool) (token : String) where
  abbrev pub with_sent : List (ℕ × Json) → RpcServer S → RpcServer S
  with_sent more r = record r { sent = r.sent ++ more }

  -- One more frame, before the others.
  told :
      (payload : Json) (w : ℕ) (heard : List ℕ) (r : RpcServer S)
      → with_sent (frames payload heard) (with_sent ((w, payload) ∷ []) r)
        ≡ with_sent ((w, payload) ∷ frames payload heard) r
  told payload w heard r =
      ap (λ sent. record r { sent = sent })
        (append_assoc r.sent ((w, payload) ∷ []) (frames payload heard))

  send_all_lem :
      (payload : Json) (clients : List ℕ) (r : RpcServer S)
      → send_all open_ token payload clients r ≡ (
        lost open_ token r.authenticated clients,
        with_sent (frames payload (reached open_ token r.authenticated clients)) r,
      )
  unfolding send_all send reached lost may_hear frames
  send_all_lem payload [] r = ap (λ sent. ([], record r { sent = sent })) (sym (append-nil r.sent))
  send_all_lem payload (w ∷ clients) r =
      elim (Bool-cases (truthy token && not (has w r.authenticated))) [
        | inl e ↦
            let deaf : may_hear token r.authenticated w ≡ false = unfold may_hear in ground arith in
            rw (send_all, e, deaf) (send_all_lem payload clients r)
        | inr e ↦
            let hears : may_hear token r.authenticated w ≡ true = unfold may_hear in ground arith in
            elim (Bool-cases (open_ w)) [
              | inl f ↦
                  rw (send_all, e, hears, send, f)
                    (send_all_lem payload clients (with_sent ((w, payload) ∷ []) r)
                      ∙ ap (λ x. (lost open_ token r.authenticated clients, x))
                          (told payload w (reached open_ token r.authenticated clients) r))
              | inr f ↦
                  rw (send_all, e, hears, send, f)
                    (ap (λ x. (w ∷ x.0, x.1)) (send_all_lem payload clients r))
            ]
      ]

  -- A push is sent once to every client whose connection is open and who may hear it, and to nobody
  -- else: where a token is set, only to those who have shown it. The clients that may hear it and are
  -- not open are forgotten; the service is not touched.
  pub broadcast_lem :
      (event : String) (params : Json) (r : RpcServer S)
      → let r' = broadcast open_ token event params r in
        let dead = lost open_ token r.authenticated r.clients in
        (r'.sent
          ≡ r.sent
            ++ frames (event_payload event params) (reached open_ token r.authenticated r.clients))
        × (r'.clients ≡ without dead r.clients)
        × (r'.authenticated ≡ without dead r.authenticated)
        × (r'.service ≡ r.service)
  unfolding broadcast
  broadcast_lem event params r =
      let dead = lost open_ token r.authenticated r.clients in
      rw (broadcast, send_all_lem (event_payload event params) r.clients r)
        (refl, discard_all_lem dead r.clients, discard_all_lem dead r.authenticated, refl)
