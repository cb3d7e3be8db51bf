-- ===== src/Config/Loading.antt =====
-- What a loaded configuration is made of.
use go_ddd.Prelude.{
  ℕ, ◌≡◌, refl, sym, ap, subst, ◌∙◌, inl, inr, true, Option, none, List, [], ◌∷◌, arith, ltb,
  nat_beq, text_eq, text_beq_iff, length, Bool-cases, ◌==◌, text_beq, some, if◌then◌else◌,
}
use go_ddd.Prelude.Int.{ℤ}
use go_ddd.Prelude.Text.{Text, codes}
use go_ddd.Prelude.Text.Decimal.{atoi}
use go_ddd.Prelude.Map.{Map}
use go_ddd.Prelude.Result.{Result, ok, err, ok_inj, ◌>>=◌}
use go_ddd.Config.{
  Config, getenv, split, set_brokers, set_int, or_kept, apply_env, validate, use_kafka, Files,
  file_config, load,
}

split-parts : (sep : ℕ) (s : Text) → (p : Text) × (ps : List Text) × (split sep s ≡ p ∷ ps)
unfolding split
split-parts sep [] = ([], [], refl)
split-parts sep (c ∷ s) =
    let (p, ps, e) = split-parts sep s in
    elim (Bool-cases (nat_beq c sep)) [
      | inl same ↦ ([], p ∷ ps, rw (e, same) refl)
      | inr other ↦ (c ∷ p, ps, rw (e, other) refl)
    ]

-- A configuration that loads is valid, and is what the environment makes of the file.
loaded :
    (environment : Map Text) (parse_duration : Text → Option ℤ) (files : Files) (c : Config)
    → load environment parse_duration files ≡ ok c
    → (file : Config) × (file_config environment files ≡ ok file)
      × (c ≡ apply_env environment parse_duration file)
      × (validate c ≡ ok tt)
unfolding load
loaded environment parse_duration files c h = split_file (file_config environment files) refl h
  where
    last :
        (file : Config) (r : Result (Unit {0}))
        → validate (apply_env environment parse_duration file) ≡ r
        → (r >>= (λ d. ok (apply_env environment parse_duration file))) ≡ ok c
        → (c ≡ apply_env environment parse_duration file) × (validate c ≡ ok tt)
    last file (err e) valid h = absurd (ground (arith, h))
    last file (ok d) valid h =
        let same = ok_inj h in (sym same, subst (λ x. validate x ≡ ok tt) same valid)

    split_file :
        (r : Result Config)
        → file_config environment files ≡ r
        → (r >>= (λ file.
            validate (apply_env environment parse_duration file)
            >>= (λ d. ok (apply_env environment parse_duration file))))
          ≡ ok c
        → (file : Config) × (file_config environment files ≡ ok file)
          × (c ≡ apply_env environment parse_duration file)
          × (validate c ≡ ok tt)
    split_file (err e) same h = absurd (ground (arith, h))
    split_file (ok file) same h =
        let (made, valid) =
          last file (validate (apply_env environment parse_duration file)) refl h in
        (file, same, made, valid)

-- The value of a variable that stands for a number, or else the old one.
abbrev pub read_or : Option ℤ → ℤ → ℤ
read_or none old = old
read_or (some n) old = n

set_int-read_or :
    (environment : Map Text) (parse_duration : Text → Option ℤ) (old : ℤ) (name : Text)
    → set_int environment parse_duration old name ≡ read_or (atoi (getenv environment name)) old
unfolding set_int or_kept atoi text_beq
set_int-read_or environment parse_duration old name = elim (Bool-cases (v == [])) [
  | inl empty ↦ rw ((text_beq_iff v []).0 empty) refl
  | inr given ↦ rw given (kept (atoi v))
]
  where
    v : Text
    v = getenv environment name

    kept : (o : Option ℤ) → or_kept o old ≡ read_or o old
    kept none = refl
    kept (some n) = refl

use_kafka-set_brokers :
    (environment : Map Text) (parse_duration : Text → Option ℤ) (old : List Text)
    → ltb 0 (length (set_brokers environment parse_duration old))
      ≡ (if getenv environment (codes "KAFKA_BROKERS") == [] then ltb 0 (length old) else true)
unfolding set_brokers
use_kafka-set_brokers environment parse_duration old =
    let v = getenv environment (codes "KAFKA_BROKERS") in
    elim (Bool-cases (v == [])) [
      | inl empty ↦ rw empty refl
      | inr given ↦ let (p, ps, e) = split-parts b',' v in rw (given, e) (ground arith)
    ]

-- A configuration that loads is what the environment makes of the file (of the defaults, if there
-- is none), and it is valid. It selects Kafka whatever the file says if KAFKA_BROKERS is set, and
-- as the file says otherwise. Its batch size is the number that OUTBOX_BATCH_SIZE holds, in decimal
-- as `Atoi` reads it, and that of the file if the variable is missing or no such number.
pub load-environment :
    (environment : Map Text) (parse_duration : Text → Option ℤ) (files : Files) (c : Config)
    → load environment parse_duration files ≡ ok c
    → (file : Config) × (file_config environment files ≡ ok file)
      × (c ≡ apply_env environment parse_duration file)
      × (validate c ≡ ok tt)
      × (use_kafka c
          ≡ (if getenv environment (codes "KAFKA_BROKERS") == [] then use_kafka file else true))
      × (c.outbox.batch_size
          ≡ read_or (atoi (getenv environment (codes "OUTBOX_BATCH_SIZE"))) file.outbox.batch_size)
load-environment environment parse_duration files c h =
    let (file, read, same, valid) = loaded environment parse_duration files c h in
    (
      file,
      read,
      same,
      valid,
      ap use_kafka same
          ∙ (unfold use_kafka in
              (unfold apply_env in
                use_kafka-set_brokers environment parse_duration file.kafka.brokers)),
      ap (λ x. x.outbox.batch_size) same
          ∙ (unfold apply_env in
              set_int-read_or environment parse_duration file.outbox.batch_size
                (codes "OUTBOX_BATCH_SIZE")),
    )
