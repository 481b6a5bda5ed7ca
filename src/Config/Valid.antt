-- ===== src/Config/Valid.antt =====
-- ValidateEffectiveConfig of config.go: which configurations pass.
use agentwrap.Prelude.{
  ℕ, ◌≡◌, refl, ◌↔◌, Bool, true, false, ◌&&◌, Option, none, some, is_empty, is_negative,
  if◌then◌else◌,
}
use agentwrap.Config.{EffectiveConfig, validate_effective_config}

-- Neither is a text set to the empty one, nor the timeout to a negative one.
pub record IsValid (cfg : EffectiveConfig) : Type 0 where
  pub runtime_name : (cfg.runtime_name.is_set && is_empty cfg.runtime_name.value) ≡ false
  pub executable : (cfg.executable.is_set && is_empty cfg.executable.value) ≡ false
  pub provider : (cfg.provider.is_set && is_empty cfg.provider.value) ≡ false
  pub model : (cfg.model.is_set && is_empty cfg.model.value) ≡ false
  pub work_dir : (cfg.work_dir.is_set && is_empty cfg.work_dir.value) ≡ false
  pub timeout : (cfg.timeout.is_set && is_negative cfg.timeout.value) ≡ false

refuse_or {ℓ κ} :
    {A : Type ℓ} {P : Type κ} (b : Bool) (e : A) (rest : Option A)
    → (b ≡ false → rest ≡ none → P)
    → (if b then some e else rest) ≡ none
    → P
refuse_or true e rest k h = absurd (cc h)
refuse_or false e rest k h = k refl h

-- A configuration is accepted exactly where no runtime name, executable, provider, model or working
-- directory is set to the empty text, and no timeout to a negative one.
pub validate_effective_config_exact :
    (fresh : ℕ) (cfg : EffectiveConfig) → validate_effective_config fresh cfg ≡ none ↔ IsValid cfg
unfolding validate_effective_config
validate_effective_config_exact fresh cfg = (
  refuse_or _ _ _ (λ a. refuse_or _ _ _ (λ b. refuse_or _ _ _ (λ c. refuse_or _ _ _ (λ d.
      refuse_or _ _ _ (λ e. refuse_or _ _ _ (λ f _. record {
        runtime_name = a;
        executable = b;
        provider = c;
        model = d;
        timeout = e;
        work_dir = f;
      })))))),
  λ v. rw (v.runtime_name, v.executable, v.provider, v.model, v.timeout, v.work_dir) refl,
)
