-- ===== src/AuthUsecase/Account.antt =====
-- What a registration and a login of internal/usecase/auth.go leave in the tables.
use go_hermes.Base.{String, none, List, [], ◌∷◌, ◌++◌, ◌≡◌, sym, ap, ◌∙◌, subst, arith}
use go_hermes.Base.Int.{ℤ, pos, ◌+ℤ◌}
use go_hermes.AppError.{Result, ok, err}
use go_hermes.AuthUsecase.{
  AuthLib, AuthDraws, RegisterResponse, register, register_as, register_tx, register_audit,
  new_user, new_wallet, register_error, check_free, attempted_call, lifted,
}
use go_hermes.Entity.{User, Wallet, Role}
use go_hermes.Store.{
  Repositories, pure, map_error, ◌>>=◌, >>=-ok, map_error-ok, pure-ok, require-ok,
}
use go_hermes.AuthUsecase.Calls.{register_tx-IsCalls}
use go_hermes.Store.Laws.{IsStore, IsAccountStore, SameUser}
use go_hermes.Store.View.{View, add_audit, set_wallets, wallet_of_user}
use go_hermes.Store.Wallets.{total}
use go_hermes.Types.{RegisterRequest, to_user_response, to_wallet_response}
use go_hermes.UuidLib.{UuidLib}

unit_right : (n : ℤ) → n ≡ pos 0 → n +ℤ pos 0 ≡ pos 0
unfolding ◌+ℤ◌
unit_right n e = ground arith

total-append : (ws : List Wallet) (w : Wallet) → w.balance ≡ pos 0 → total (ws ++ w ∷ []) ≡ total ws
unfolding total
total-append [] w e = unit_right w.balance e
total-append (x ∷ ws) w e = ap (λ n. x.balance +ℤ n) (total-append ws w e)

-- A view with a new user and a wallet of theirs.
abbrev pub opened : View → User → Wallet → View
opened v x w = record v { users = v.users ++ x ∷ []; wallets = v.wallets ++ w ∷ [] }

module _ (r : Repositories) (l : IsStore r) (al : IsAccountStore r l.view) (u : UuidLib)
    (a : AuthLib) (d : AuthDraws) where
  -- An account as the transaction of a registration opens it.
  pub record Opened (v v' : View) (x : User) (w : Wallet) (x' : User) (w' : Wallet) : Type 0 where
    pub same_user : SameUser x x'
    pub same_wallet : w' ≡ record w { created_at = w'.created_at; updated_at = w'.updated_at }
    pub first_wallet : wallet_of_user w.user_id v.wallets ≡ none
    pub tables : v' ≡ add_audit (opened v x' w') (register_audit d x')

  Opened-tables :
      (v v1 v2 v3 v' : View) (x y x' : User) (w z w' : Wallet)
      → x' ≡ y
      → w' ≡ z
      → SameUser x y
      → v1 ≡ record v { users = v.users ++ y ∷ [] }
      → (z ≡ record w { created_at = z.created_at; updated_at = z.updated_at })
        × (wallet_of_user w.user_id v1.wallets ≡ none)
        × (v2 ≡ set_wallets v1 (v1.wallets ++ z ∷ []))
      → v3 ≡ add_audit v2 (register_audit d y)
      → v' ≡ v3
      → Opened v v' x w x' w'
  Opened-tables v v1 v2 v3 v' x y x' w z w' ex ew su e1 (sw, fw, e2) e3 e' = record {
    same_user = subst (SameUser x) (sym ex) su;
    same_wallet =
        subst (λ k. k ≡ record w { created_at = k.created_at; updated_at = k.updated_at }) (sym ew)
          sw;
    first_wallet = ap (λ k. wallet_of_user w.user_id k.wallets) (sym e1) ∙ fw;
    tables =
        e'
        ∙ (e3
            ∙ (ap (λ k. add_audit k (register_audit d y)) e2
                ∙ (ap (λ k. add_audit (set_wallets k (k.wallets ++ z ∷ [])) (register_audit d y)) e1
                    ∙ (ap (λ k. add_audit (opened v k z) (register_audit d k)) (sym ex)
                        ∙ ap (λ k. add_audit (opened v x' k) (register_audit d x')) (sym ew)))));
  }

  register_tx-ok :
      (x : User) (w : Wallet) (s t : r.Db) (x' : User) (w' : Wallet)
      → register_tx r u a d x w s ≡ (ok (x', w'), t)
      → Opened (l.view s) (l.view t) x w x' w'
  unfolding register_tx
  register_tx-ok x w s t x' w' h =
      let (y, s1, e1, h) = >>=-ok _ _ s h in
      let (z, s2, e2, h) = >>=-ok _ _ s1 h in
      let (o, s3, e3, h) = >>=-ok _ _ s2 h in
      let (same, last) = pure-ok h in
      Opened-tables (l.view s) (l.view s1) (l.view s2) (l.view s3) (l.view t) x y x' w z w'
        (ap (λ p. p.0) same) (ap (λ p. p.1) same) (al.user_created x y s s1 e1).0
        (al.user_created x y s s1 e1).1 (al.wallet_created w z s1 s2 e2)
        (l.audit_created (register_audit d y) s2 s3 o e3) (ap l.view last)

  attempted-ok :
      (email : String) (s t : r.Db) (res : Result User)
      → attempted_call (r.users.get_by_email email) s ≡ (ok res, t)
      → l.view t ≡ l.view s
  attempted-ok email s t res h = ap (λ p. l.view p.1) (sym h) ∙ al.user_by_email email s

  pub check_free-ok :
      (res : Result User) (s t : r.Db) (o : Unit {0}) → check_free res s ≡ (ok o, t) → t ≡ s
  check_free-ok (ok x) s t o h = absurd (ground arith)
  check_free-ok (err e) s t o h = ground arith

  pub lifted-ok : (res : Result String) (s t : r.Db) (x : String) → lifted res s ≡ (ok x, t) → t ≡ s
  lifted-ok (ok x) s t y h = ground arith
  lifted-ok (err e) s t y h = absurd (ground arith)

  registered :
      (name email hash : String) (v : View) (s t : r.Db) (res : RegisterResponse)
      → l.view s ≡ v
      → (map_error register_error (
              r.tx.within_transaction
                (User × Wallet)
                (register_tx r u a d (new_user d name email hash) (new_wallet d)))
            >>= λ created. pure (record {
              user = to_user_response u created.0;
              wallet = to_wallet_response u created.1;
            }))
          s
        ≡ (ok res, t)
      → (hash : String) × (x : User) × (w : Wallet) × Opened v
          (l.view t)
          (new_user d name email hash)
          (new_wallet d)
          x
          w
        × (res ≡ record { user = to_user_response u x; wallet = to_wallet_response u w })
  registered name email hash v s t res before h =
      let (created, s1, e1, h1) = >>=-ok _ _ s h in
      let (b, s2, begun, ran, same) =
        l.commits _ _ s s1 created (register_tx-IsCalls r u a d _ _) (map_error-ok _ _ s e1) in
      let (shown, last) = pure-ok h1 in
      let made =
        register_tx-ok (new_user d name email hash) (new_wallet d) b s2 created.0 created.1 ran in
      (
        hash,
        created.0,
        created.1,
        subst (λ k. Opened v k (new_user d name email hash) (new_wallet d) created.0 created.1)
            (sym (ap l.view last ∙ same))
            (subst
              (λ k.
                Opened k (l.view s2) (new_user d name email hash) (new_wallet d) created.0
                  created.1)
              (begun ∙ before) made),
        shown,
      )

  -- From the normalized name and email on, up to the transaction.
  register_as-ok :
      (name email password : String) (s t : r.Db) (res : RegisterResponse)
      → register_as r u a d name email password s ≡ (ok res, t)
      → (hash : String) × (x : User) × (w : Wallet) × Opened
          (l.view s)
          (l.view t)
          (new_user d name email hash)
          (new_wallet d)
          x
          w
        × (res ≡ record { user = to_user_response u x; wallet = to_wallet_response u w })
  unfolding register_as
  register_as-ok name email password s t res h =
      let (o1, s1, e1, h1) = >>=-ok _ _ s h in
      let (existing, s2, e2, h2) = >>=-ok _ _ s1 h1 in
      let (o3, s3, e3, h3) = >>=-ok _ _ s2 h2 in
      let (hash, s4, e4, h4) = >>=-ok _ _ s3 h3 in
      let before =
        ap l.view (lifted-ok (a.hash_password password) s3 s4 hash (map_error-ok _ _ s3 e4))
        ∙ (ap l.view (check_free-ok existing s2 s3 o3 e3)
            ∙ (attempted-ok email s1 s2 existing e2 ∙ ap l.view (require-ok _ _ s e1).1)) in
      registered name email hash (l.view s) s4 t res before h4

  -- An account that a registration has opened: a user with the role of users and the normalized name
  -- and email, and their only wallet, which is empty.
  pub record IsAccount (req : RegisterRequest) (v v' : View) (x : User) (w : Wallet) : Type 0 where
    pub tables : v' ≡ add_audit (opened v x w) (register_audit d x)
    pub name : x.name ≡ a.trim_space req.name
    pub email : x.email ≡ a.to_lower (a.trim_space req.email)
    pub role : x.role ≡ Role.user
    pub owner : w.user_id ≡ x.id
    pub empty : w.balance ≡ pos 0
    pub only : wallet_of_user x.id v.wallets ≡ none
    pub total_kept : total v'.wallets ≡ total v.wallets

  Opened-IsAccount :
      (req : RegisterRequest) (hash : String) (v v' : View) (x : User) (w : Wallet)
      → Opened v v'
          (new_user d (a.trim_space req.name) (a.to_lower (a.trim_space req.email)) hash)
          (new_wallet d)
          x
          w
      → IsAccount req v v' x w
  unfolding new_user new_wallet
  Opened-IsAccount req hash v v' x w o =
      let id = ap (λ k. k.id) o.same_user in
      record {
        tables = o.tables;
        name = ap (λ k. k.name) o.same_user;
        email = ap (λ k. k.email) o.same_user;
        role = ap (λ k. k.role) o.same_user;
        owner = ap (λ k. k.user_id) o.same_wallet ∙ sym id;
        empty = ap (λ k. k.balance) o.same_wallet;
        only = ap (λ i. wallet_of_user i v.wallets) id ∙ o.first_wallet;
        total_kept =
            ap (λ k. total k.wallets) o.tables
            ∙ total-append v.wallets w (ap (λ k. k.balance) o.same_wallet);
      }

  -- If Register returns a response, then exactly a user, a wallet and an audit log entry have been
  -- added to the tables: the user has the role of users, the trimmed name and the trimmed and lower-cased
  -- email, the wallet is that user's only one and is empty, the sum of all balances is the same, and the
  -- response shows the two.
  pub register-IsAccount :
      (req : RegisterRequest) (s t : r.Db) (res : RegisterResponse)
      → register r u a d req s ≡ (ok res, t)
      → (x : User) × (w : Wallet) × IsAccount req (l.view s) (l.view t) x w
        × (res ≡ record { user = to_user_response u x; wallet = to_wallet_response u w })
  unfolding register
  register-IsAccount req s t res h =
      let (hash, x, w, made, shown) = register_as-ok _ _ req.password s t res h in
      (x, w, Opened-IsAccount req hash (l.view s) (l.view t) x w made, shown)
