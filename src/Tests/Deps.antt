-- ===== src/Tests/Deps.antt =====
-- tools/cert_deps.py in its two lanes.
use drift_mariadb_client.Pins.Strict.{Locked, external_pins-Locked}
use drift_mariadb_client.Base.{
  ◌≡◌, refl, true, false, none, some, List, [], ◌∷◌, Text, codes, returned, raised, text_eq,
}
use drift_mariadb_client.Base.Dict.{Dict, keys}
use drift_mariadb_client.Base.Order.{sort_by, text_le, IsSorted}
use drift_mariadb_client.Base.Strings.{split_words, partition}
use drift_mariadb_client.Pins.{
  CertEnv, missing_deps, sorted, strict_versions, resolved_of, external_pins,
}
use drift_mariadb_client.Pins.Lanes.{IsCertified, external_pins-IsCertified, PinsOf}

abbrev certify_env : Text → CertEnv
certify_env stdout = record {
  cert_mode = some (codes "certify");
  toolchain_root = some (codes "/opt/drift");
  drift_is_file = true;
  lock = none;
  lock_emit = λ _. record { returncode = 0; stdout = stdout };
}

abbrev declared : Dict Text Text
declared = (codes "net", codes "1.0") ∷ []

-- `wire` is a co-artifact.
abbrev exclude : List Text
exclude = codes "wire" ∷ []

abbrev emitted : Text
emitted = codes "--dep tls@2 --dep net@1.1\n--dep wire@3\n"

abbrev pins : List Text
pins = codes "net@1.1" ∷ codes "tls@2" ∷ []

certified : external_pins (certify_env emitted) (codes "rpc") declared exclude ≡ returned pins
unfolding external_pins sort_by text_le split_words partition
certified = refl

-- An empty output is no answer for what is declared.
empty_output :
    external_pins (certify_env []) (codes "rpc") declared exclude
    ≡ raised (missing_deps (codes "net" ∷ []))
unfolding external_pins sort_by text_le split_words partition
empty_output = refl

external_pins-IsCertified_example :
    IsCertified (certify_env emitted) (codes "rpc") declared exclude pins
unfolding text_eq
external_pins-IsCertified_example =
    external_pins-IsCertified (certify_env emitted) (codes "rpc") declared exclude pins refl
      certified

abbrev strict_env : CertEnv
strict_env = record {
  cert_mode = none;
  toolchain_root = none;
  drift_is_file = false;
  lock = some (
      (
        codes "rpc",
        (codes "wire", none)
            ∷ (codes "net", some (codes "1.2"))
            ∷ (codes "old", some (codes "9"))
            ∷ [],
      )
      ∷ []);
  lock_emit = λ _. record { returncode = 1; stdout = [] };
}

abbrev locked : Dict Text Text
locked = (codes "net", codes "1.2") ∷ (codes "old", codes "9") ∷ []

read_lock : strict_versions strict_env.lock (codes "rpc") exclude ≡ returned locked
unfolding strict_versions text_eq
read_lock = refl

external_pins-Locked_example :
    (pins : List Text) × (external_pins strict_env (codes "rpc") declared exclude ≡ returned pins)
    × IsSorted text_le (sorted (keys declared))
    × PinsOf
        (Locked exclude (resolved_of strict_env.lock (codes "rpc")) declared)
        (sorted (keys declared))
        pins
unfolding text_eq resolved_of
external_pins-Locked_example =
    external_pins-Locked strict_env (codes "rpc") declared locked exclude refl
      (refl, (refl, (refl, tt))) read_lock
