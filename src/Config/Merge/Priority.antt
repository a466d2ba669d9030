-- ===== src/Config/Merge/Priority.antt =====
-- internal/config/merge.go: which source a setting of the merged configuration comes from.
use text.Mathlib.Text.{◌==◌ as str_eq}
use text.Mathlib.TextEquality.{eq_iff}
use awsocks.Prelude.{
  ap, sym, ◌∙◌, ap, ◌∙◌, sym, ◌≡◌, refl, Option, none, some, List, [], ◌∷◌, String, if◌then◌else◌,
  Bool-cases, inl, inr,
}
use awsocks.Config.Types.{Durations, Defaults, Profile, CliFlags, MergedConfig}
use awsocks.Config.Merge.{
  parsed, keepalive_flag, built_in, apply_defaults, apply_profile, apply_cli, merge,
}

-- the first text of a list of sources that is not empty
abbrev pub first_given : List String → String → String
first_given [] last = last
first_given (x ∷ xs) last = if str_eq x "" then first_given xs last else x

-- a text of a source that may be missing
abbrev pub text_of {ℓ} : {A : Type ℓ} → (A → String) → Option A → String
text_of f none = ""
text_of f (some a) = f a

-- Every text of the merged configuration is the first that is not empty among the flags, the
-- profile, the defaults of the file and the built-in defaults, whichever of the first three exist;
-- the texts the defaults cannot give are the first of the flags and the profile.
pub merge-text :
    (t : Durations) (d : Option Defaults) (p : Option Profile) (c : Option CliFlags)
    → ((merge t d p c).ssh_user
        ≡ first_given
            (text_of (λ x. x.ssh_user) c
              ∷ text_of (λ x. x.ssh_user) p
              ∷ text_of (λ x. x.ssh_user) d
              ∷ [])
            "ec2-user")
      × ((merge t d p c).listen
          ≡ first_given
              (text_of (λ x. x.listen) c
                ∷ text_of (λ x. x.listen) p
                ∷ text_of (λ x. x.listen) d
                ∷ [])
              "127.0.0.1:1080")
      × ((merge t d p c).http_listen
          ≡ first_given
              (text_of (λ x. x.http_listen) c
                ∷ text_of (λ x. x.http_listen) p
                ∷ text_of (λ x. x.http_listen) d
                ∷ [])
              "")
      × ((merge t d p c).proxy_network
          ≡ first_given
              (text_of (λ x. x.proxy_network) c
                ∷ text_of (λ x. x.proxy_network) p
                ∷ text_of (λ x. x.proxy_network) d
                ∷ [])
              "")
      × ((merge t d p c).instance_id
          ≡ first_given (text_of (λ x. x.instance_id) c ∷ text_of (λ x. x.instance_id) p ∷ []) "")
      × ((merge t d p c).aws_profile
          ≡ first_given (text_of (λ x. x.aws_profile) c ∷ text_of (λ x. x.aws_profile) p ∷ []) "")
      × ((merge t d p c).region
          ≡ first_given (text_of (λ x. x.region) c ∷ text_of (λ x. x.region) p ∷ []) "")
      × ((merge t d p c).ssh_key
          ≡ first_given (text_of (λ x. x.ssh_key) c ∷ text_of (λ x. x.ssh_key) p ∷ []) "")
      × ((merge t d p c).name
          ≡ first_given (text_of (λ x. x.name) c ∷ text_of (λ x. x.name) p ∷ []) "")
      × ((merge t d p c).ssh_key_passphrase
          ≡ first_given
              (text_of (λ x. x.ssh_key_passphrase) c ∷ text_of (λ x. x.ssh_key_passphrase) p ∷ [])
              "")
unfolding merge built_in
merge-text t none none none = (refl, refl, refl, refl, refl, refl, refl, refl, refl, refl)
merge-text t none none (some c) = (refl, refl, refl, refl, refl, refl, refl, refl, refl, refl)
merge-text t none (some p) none = (refl, refl, refl, refl, refl, refl, refl, refl, refl, refl)
merge-text t none (some p) (some c) = (refl, refl, refl, refl, refl, refl, refl, refl, refl, refl)
merge-text t (some d) none none = (refl, refl, refl, refl, refl, refl, refl, refl, refl, refl)
merge-text t (some d) none (some c) = (refl, refl, refl, refl, refl, refl, refl, refl, refl, refl)
merge-text t (some d) (some p) none = (refl, refl, refl, refl, refl, refl, refl, refl, refl, refl)
merge-text t (some d) (some p) (some c) =
    (refl, refl, refl, refl, refl, refl, refl, refl, refl, refl)

-- the duration a text gives, or `last`
abbrev pub duration : (t : Durations) → String → t.Duration → t.Duration
duration t x last = elim (t.parse_duration x) [ none ↦ last | some a ↦ a ]

-- the duration of the first text that is one
abbrev pub first_parsed : (t : Durations) → List String → t.Duration → t.Duration
first_parsed t [] last = last
first_parsed t (x ∷ xs) last = duration t x (first_parsed t xs last)

-- the flag --ssh-keepalive, empty where it is not set
abbrev pub keepalive_text : Option CliFlags → String
keepalive_text none = ""
keepalive_text (some c) = elim c.ssh_keepalive [ none ↦ "" | some x ↦ x ]

parsed-if_given :
    (t : Durations) (x : String) (old : t.Duration)
    → t.parse_duration "" ≡ none
    → (if str_eq x "" then old else parsed t x old) ≡ duration t x old
unfolding parsed
parsed-if_given t x old e = elim (Bool-cases (str_eq x "")) [
  | inl b ↦ rw (b, (eq_iff x "").0 b, e, duration) refl
  | inr b ↦ rw b refl
]

first_given_last : (x : String) → (if str_eq x "" then "" else x) ≡ x
first_given_last x = elim (Bool-cases (str_eq x "")) [
  | inl b ↦ rw b (sym ((eq_iff x "").0 b))
  | inr b ↦ rw b refl
]

module _ (t : Durations) (e : t.parse_duration "" ≡ none) where
  apply_defaults-keepalive :
      (d : Option Defaults) (r : MergedConfig t.Duration)
      → (apply_defaults t d r).ssh_keepalive_interval
        ≡ duration t (text_of (λ x. x.ssh_keepalive) d) r.ssh_keepalive_interval
  unfolding apply_defaults
  apply_defaults-keepalive none r = rw (e, duration) refl
  apply_defaults-keepalive (some d) r = parsed-if_given t d.ssh_keepalive r.ssh_keepalive_interval e

  apply_profile-keepalive :
      (p : Option Profile) (r : MergedConfig t.Duration)
      → (apply_profile t p r).ssh_keepalive_interval
        ≡ duration t (text_of (λ x. x.ssh_keepalive) p) r.ssh_keepalive_interval
  unfolding apply_profile
  apply_profile-keepalive none r = rw (e, duration) refl
  apply_profile-keepalive (some p) r = parsed-if_given t p.ssh_keepalive r.ssh_keepalive_interval e

  keepalive_flag_lem :
      (o : Option String) (old : t.Duration)
      → keepalive_flag t o old ≡ duration t (elim o [ none ↦ "" | some x ↦ x ]) old
  unfolding keepalive_flag parsed
  keepalive_flag_lem none old = rw (e, duration) refl
  keepalive_flag_lem (some x) old = refl

  apply_cli-keepalive :
      (c : Option CliFlags) (r : MergedConfig t.Duration)
      → (apply_cli t c r).ssh_keepalive_interval
        ≡ duration t (keepalive_text c) r.ssh_keepalive_interval
  unfolding apply_cli
  apply_cli-keepalive none r = rw (e, duration) refl
  apply_cli-keepalive (some c) r = keepalive_flag_lem c.ssh_keepalive r.ssh_keepalive_interval

  apply_defaults-idle_timeout :
      (d : Option Defaults) (r : MergedConfig t.Duration)
      → (apply_defaults t d r).idle_timeout
        ≡ duration t (text_of (λ x. x.idle_timeout) d) r.idle_timeout
  unfolding apply_defaults
  apply_defaults-idle_timeout none r = rw (e, duration) refl
  apply_defaults-idle_timeout (some d) r = parsed-if_given t d.idle_timeout r.idle_timeout e

  apply_profile-idle_timeout :
      (p : Option Profile) (r : MergedConfig t.Duration) (before : String)
      → r.idle_timeout ≡ duration t before t.zero_duration
      → (apply_profile t p r).idle_timeout
        ≡ duration t
            (first_given (text_of (λ x. x.idle_timeout) p ∷ before ∷ []) "")
            t.zero_duration
  unfolding apply_profile parsed
  apply_profile-idle_timeout none r before h =
      h ∙ ap (λ x. duration t x t.zero_duration) (sym (first_given_last before))
  apply_profile-idle_timeout (some p) r before h = elim (Bool-cases (str_eq p.idle_timeout "")) [
    | inl b ↦ rw b (h ∙ ap (λ x. duration t x t.zero_duration) (sym (first_given_last before)))
    | inr b ↦ rw b refl
  ]

  apply_cli-idle_timeout :
      (c : Option CliFlags) (r : MergedConfig t.Duration)
      → (apply_cli t c r).idle_timeout ≡ r.idle_timeout
  unfolding apply_cli
  apply_cli-idle_timeout none r = refl
  apply_cli-idle_timeout (some c) r = refl

-- Where the empty text is no duration, the idle timeout is the duration of the first text that is
-- not empty of the profile and of the defaults of the file, and zero where that text is no duration
-- or there is none: a text of the profile that is not a duration hides the one of the defaults.
pub merge-idle_timeout :
    (t : Durations) (d : Option Defaults) (p : Option Profile) (c : Option CliFlags)
    → t.parse_duration "" ≡ none
    → (merge t d p c).idle_timeout
      ≡ duration t
          (first_given (text_of (λ x. x.idle_timeout) p ∷ text_of (λ x. x.idle_timeout) d ∷ []) "")
          t.zero_duration
unfolding merge built_in
merge-idle_timeout t d p c e =
    apply_cli-idle_timeout t e c (apply_profile t p (apply_defaults t d (built_in t)))
    ∙ apply_profile-idle_timeout t e p (apply_defaults t d (built_in t)) _
        (apply_defaults-idle_timeout t e d (built_in t))

-- Where the empty text is no duration, the interval of the keepalives is the first duration among
-- the texts of the flag, of the profile and of the defaults of the file, a text that is none being
-- passed over, and thirty seconds where none of them is a duration.
pub merge-ssh_keepalive :
    (t : Durations) (d : Option Defaults) (p : Option Profile) (c : Option CliFlags)
    → t.parse_duration "" ≡ none
    → (merge t d p c).ssh_keepalive_interval
      ≡ first_parsed t
          (keepalive_text c
            ∷ text_of (λ x. x.ssh_keepalive) p
            ∷ text_of (λ x. x.ssh_keepalive) d
            ∷ [])
          t.thirty_seconds
unfolding merge built_in
merge-ssh_keepalive t d p c e =
    apply_cli-keepalive t e c (apply_profile t p (apply_defaults t d (built_in t)))
    ∙ ap (duration t (keepalive_text c)) (
        apply_profile-keepalive t e p (apply_defaults t d (built_in t))
        ∙ ap (duration t (text_of (λ x. x.ssh_keepalive) p))
            (apply_defaults-keepalive t e d (built_in t)))
