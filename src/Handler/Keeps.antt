-- ===== src/Handler/Keeps.antt =====
-- What a use case keeps of the state, the handler that runs it keeps: the other ends of a handler leave
-- the state alone.
use go_hermes.Base.{String, Option, none, some, List, [], ◌∷◌, ◌≡◌, refl, sym, subst}
use go_hermes.AppError.{Result, ok, err}
use go_hermes.AuthUsecase.{AuthLib, AuthDraws, register}
use go_hermes.Handler.Account.{register_handler}
use go_hermes.Handler.Input.{
  HttpRequest, BodyLib, RegisterBody, TopUpBody, TransferBody, hash_payload, details_of,
}
use go_hermes.Handler.Money.{
  top_up_handler, top_up_request_of, transfer_handler, transfer_request_of, with_hash,
}
use go_hermes.Handler.Reply.{Reply, answer, with_body, with_body_of, if_valid}
use go_hermes.Store.{Repositories}
use go_hermes.TransactionUsecase.Common.{Draws, World}
use go_hermes.TransactionUsecase.TopUp.{top_up}
use go_hermes.TransactionUsecase.Transfer.{transfer}
use go_hermes.Types.{RegisterRequest, TopUpRequest, TransferRequest}
use go_hermes.UuidLib.{UuidLib}
use go_hermes.Webhook.Create.{WebhookNotifier}

answer-state : {S A B : Type 0} (f : A → Reply B) (p : Result A × S) → (answer f p).1 ≡ p.1
answer-state f (ok a, s) = refl
answer-state f (err e, s) = refl

module _ {S : Type 0} (P : S → Type 0) where
  answer-keeps : {A B : Type 0} (f : A → Reply B) (p : Result A × S) → P p.1 → P (answer f p).1
  answer-keeps f p h = subst P (sym (answer-state f p)) h

  with_hash-keeps :
      {B : Type 0} (h : Result String) (k : String → S → Reply B × S) (s : S)
      → ((request_hash : String) → P (k request_hash s).1)
      → P s
      → P (with_hash h k s).1
  with_hash-keeps (ok request_hash) k s f p = f request_hash
  with_hash-keeps (err e) k s f p = p

  if_valid-keeps :
      {B : Type 0} (ds : List (String × String)) (k : S → Reply B × S) (s : S)
      → P (k s).1
      → P s
      → P (if_valid ds k s).1
  if_valid-keeps [] k s f p = f
  if_valid-keeps (d ∷ ds) k s f p = p

  with_body_of-keeps :
      {A B : Type 0} (l : BodyLib A) (o : Option A) (k : A → S → Reply B × S) (s : S)
      → ((x : A) → o ≡ some x → P (k x s).1)
      → P s
      → P (with_body_of l o k s).1
  with_body_of-keeps l none k s f p = p
  with_body_of-keeps l (some x) k s f p =
      if_valid-keeps (details_of (l.struct x)) (k x) s (f x refl) p

-- A request whose amount is that of the body.
abbrev pub TopUpAsked : BodyLib TopUpBody → HttpRequest → TopUpRequest → Type 0
TopUpAsked b c req = (body : TopUpBody) × (b.body_parser c ≡ some body) × (req.amount ≡ body.amount)

abbrev pub TransferAsked : BodyLib TransferBody → HttpRequest → TransferRequest → Type 0
TransferAsked b c req =
    (body : TransferBody) × (b.body_parser c ≡ some body) × (req.amount ≡ body.amount)

module _ (r : Repositories) (u : UuidLib) where
  pub register_handler-keeps :
      (P : r.Db → Type 0) (a : AuthLib) (d : AuthDraws) (b : BodyLib RegisterBody) (c : HttpRequest)
      (s : r.Db)
      → ((req : RegisterRequest) → P (register r u a d req s).1)
      → P s
      → P (register_handler r u a d b c s).1
  unfolding register_handler with_body
  register_handler-keeps P a d b c s keeps p =
      with_body_of-keeps P b (b.body_parser c) _ s (λ body parsed. answer-keeps P _ _ (keeps _)) p

  module _ (n : WebhookNotifier) (P : World r.Db → Type 0) (d : Draws) (c : HttpRequest)
      (w : World r.Db) where
    pub top_up_handler-keeps :
        (b : BodyLib TopUpBody)
        → ((req : TopUpRequest) → TopUpAsked b c req → P (top_up r u n req d w).1)
        → P w
        → P (top_up_handler r u n d b c w).1
    unfolding top_up_handler with_body
    top_up_handler-keeps b keeps p =
        with_body_of-keeps P b (b.body_parser c) _ w
          (λ body parsed.
            with_hash-keeps P (hash_payload b body) _ w
              (λ request_hash.
                answer-keeps P _ _
                  (keeps (top_up_request_of c body request_hash) (body, parsed, refl)))
              p)
          p

    pub transfer_handler-keeps :
        (b : BodyLib TransferBody)
        → ((req : TransferRequest) → TransferAsked b c req → P (transfer r u n req d w).1)
        → P w
        → P (transfer_handler r u n d b c w).1
    unfolding transfer_handler with_body
    transfer_handler-keeps b keeps p =
        with_body_of-keeps P b (b.body_parser c) _ w
          (λ body parsed.
            with_hash-keeps P (hash_payload b body) _ w
              (λ request_hash.
                answer-keeps P _ _
                  (keeps (transfer_request_of c body request_hash) (body, parsed, refl)))
              p)
          p
