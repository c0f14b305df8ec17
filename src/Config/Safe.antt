-- ===== src/Config/Safe.antt =====
-- What a configuration that Validate accepts promises.
use go_hermes.Base.{
  String, Bool, true, false, List, [], ◌∷◌, ◌≡◌, ◌≢◌, ◌⊎◌, inl, inr, ◌↔◌, ◌≤◌, refl, sym, ◌∙◌,
  arith, not, ◌&&◌, ◌||◌, ltb, str_eq, str_eq_iff, Bool-cases, true_ne_false, All, if◌then◌else◌,
}
use go_hermes.AppError.{Result, ok, err, Error}
use go_hermes.Config.{
  EnvLib, Config, is_development, is_weak_jwt_secret, validate, is_one_of, default_secrets,
}

-- A secret of at least 32 bytes that is none of the defaults, whatever its case and the space around.
pub record IsStrong (e : EnvLib) (secret : String) : Type 0 where
  pub long : 32 ≤ e.len (e.trim_space secret)
  pub own : All (λ weak. e.to_lower (e.trim_space secret) ≢ weak) default_secrets

pub record IsSafe (e : EnvLib) (c : Config) : Type 0 where
  pub issued : e.trim_space c.jwt.issuer ≢ ""
  pub secret : (is_development e c.app ≡ true) ⊎ IsStrong e c.jwt.secret
  pub token :
      (is_development e c.app ≡ true)
      ⊎ ((c.observability.metrics_enabled ≡ false)
          ⊎ (e.trim_space c.observability.metrics_token ≢ ""))

different : (s t : String) → str_eq s t ≡ false → s ≢ t
different s t h p = true_ne_false (sym ((str_eq_iff s t).1 p) ∙ h)

not_equal : (s t : String) → s ≢ t → str_eq s t ≡ false
not_equal s t h = elim (Bool-cases (str_eq s t)) [
  | inl same ↦ absurd (h ((str_eq_iff s t).0 same))
  | inr differ ↦ differ
]

or-false : (a b : Bool) → (a || b) ≡ false → (a ≡ false) × (b ≡ false)
or-false true b h = absurd (ground arith)
or-false false b h = (refl, h)

if_true-false : (a b : Bool) → (if a then true else b) ≡ false → (a ≡ false) × (b ≡ false)
if_true-false true b h = absurd (ground arith)
if_true-false false b h = (refl, h)

none_of : (ts : List String) (s : String) → is_one_of ts s ≡ false → All (λ t. s ≢ t) ts
none_of [] s h = tt
none_of (t ∷ ts) s h =
    let (first, rest) = or-false (str_eq s t) (is_one_of ts s) h in
    (different s t first, none_of ts s rest)

none_of-false : (ts : List String) (s : String) → All (λ t. s ≢ t) ts → is_one_of ts s ≡ false
none_of-false [] s h = refl
none_of-false (t ∷ ts) s h = ground (arith, not_equal s t h.0, none_of-false ts s h.1)

-- The three guards of Validate, on their tests.
abbrev guarded : Bool → Bool → Bool → Bool → Bool → Error → Error → Error → Result (Unit {0})
guarded blank dev weak metrics empty e1 e2 e3 =
    if blank
    then err e1
    else if not dev && weak
    then err e2
    else if metrics && (not dev && empty)
    then err e3
    else ok tt

Passes : Bool → Bool → Bool → Bool → Bool → Type 0
Passes blank dev weak metrics empty =
    (blank ≡ false)
    × ((dev ≡ true) ⊎ (weak ≡ false))
    × ((dev ≡ true) ⊎ ((metrics ≡ false) ⊎ (empty ≡ false)))

guarded-Passes :
    (blank dev weak metrics empty : Bool) (e1 e2 e3 : Error)
    → guarded blank dev weak metrics empty e1 e2 e3 ≡ ok tt
    → Passes blank dev weak metrics empty
unfolding Passes
guarded-Passes true dev weak metrics empty e1 e2 e3 h = absurd (ground arith)
guarded-Passes false true weak metrics empty e1 e2 e3 h = (refl, inl refl, inl refl)
guarded-Passes false false true metrics empty e1 e2 e3 h = absurd (ground arith)
guarded-Passes false false false true true e1 e2 e3 h = absurd (ground arith)
guarded-Passes false false false true false e1 e2 e3 h = (refl, inr refl, inr (inr refl))
guarded-Passes false false false false empty e1 e2 e3 h = (refl, inr refl, inr (inl refl))

Passes-guarded :
    (blank dev weak metrics empty : Bool) (e1 e2 e3 : Error)
    → Passes blank dev weak metrics empty
    → guarded blank dev weak metrics empty e1 e2 e3 ≡ ok tt
unfolding Passes
Passes-guarded blank dev weak metrics empty e1 e2 e3 h = ground (arith, h)

module _ (e : EnvLib) where
  IsStrong-weak : (secret : String) → is_weak_jwt_secret e secret ≡ false → IsStrong e secret
  unfolding is_weak_jwt_secret
  IsStrong-weak secret h =
      let (long, own) = if_true-false (ltb (e.len (e.trim_space secret)) 32) _ h in
      record { long = ground (arith, long); own = none_of default_secrets _ own }

  weak-IsStrong : (secret : String) → IsStrong e secret → is_weak_jwt_secret e secret ≡ false
  unfolding is_weak_jwt_secret
  weak-IsStrong secret h =
      ground (arith, h.long, none_of-false default_secrets (e.to_lower (e.trim_space secret)) h.own)

  -- Validate accepts a configuration exactly when the token issuer is not blank, the JWT secret is
  -- strong or the environment is development, and the metrics token is not blank or the metrics are
  -- off or the environment is development.
  pub validate-IsSafe : (c : Config) → (validate e c ≡ ok tt) ↔ IsSafe e c
  unfolding validate Passes
  validate-IsSafe c = (
    λ h.
        let (issued, secret, token) = guarded-Passes _ _ _ _ _ _ _ _ h in
        record {
          issued = different (e.trim_space c.jwt.issuer) "" issued;
          secret = elim secret [
            | inl dev ↦ inl dev
            | inr strong ↦ inr (IsStrong-weak c.jwt.secret strong)
          ];
          token = elim token [
            | inl dev ↦ inl dev
            | inr rest ↦ elim rest [
              | inl off ↦ inr (inl off)
              | inr set ↦ inr (inr (different (e.trim_space c.observability.metrics_token) "" set))
            ]
          ];
        },
    λ h. Passes-guarded _ _ _ _ _ _ _ _ (
      not_equal (e.trim_space c.jwt.issuer) "" h.issued,
      elim h.secret [ inl dev ↦ inl dev | inr strong ↦ inr (weak-IsStrong c.jwt.secret strong) ],
      elim h.token [
        | inl dev ↦ inl dev
        | inr rest ↦ elim rest [
          | inl off ↦ inr (inl off)
          | inr set ↦ inr (inr (not_equal (e.trim_space c.observability.metrics_token) "" set))
        ]
      ],
    ),
  )
