-- ===== src/Inventory/Consumers/Permanence.antt =====
-- internal/inventory/consumers.go: what `Commands` does with a record, and which of its failures are not
-- worth a retry.
use sagaflow.Base.{◌≡◌, refl, Bool, true, false, ◌||◌, ◌&&◌, inl, inr, ◌⊎◌, Bool-cases, arith}
use sagaflow.Errors.{
  Error, Sentinel, Result, ok, err, sentinel, permanent, unknown_command, errors_is, Result-cases,
}
use sagaflow.Contracts.{ProtoMessage}
use sagaflow.Envelope.{Envelope, parse}
use sagaflow.Database.{Bytes}
use sagaflow.Session.{Session}
use sagaflow.Kafka.Wire.{Record}
use sagaflow.Inventory.Commands.{Deps, handle}
use sagaflow.Inventory.Consumers.{as_permanent, classify, commands}

abbrev pub is_error : Sentinel → Result (Unit {0}) → Bool
is_error k (ok u) = false
is_error k (err e) = errors_is e k

abbrev pub succeeds : Result (Unit {0}) → Bool
succeeds (ok u) = true
succeeds (err e) = false

-- An error that is permanent, and nothing else that is tested for.
abbrev pub IsPermanentOnly : Result (Unit {0}) → Type 0
IsPermanentOnly x =
    (succeeds x ≡ false) × ((k : Sentinel) → is_error k x ≡ errors_is (sentinel permanent) k)

-- What is returned for what `Handle` returned: a success for a success, and for an error one that is
-- what that error is, and permanent too if that error is an unknown command.
abbrev pub IsClassified : Result (Unit {0}) → Result (Unit {0}) → Type 0
IsClassified y x =
    (succeeds x ≡ succeeds y)
    × ((k : Sentinel)
        → is_error k x
          ≡ (is_error k y || (is_error unknown_command y && errors_is (sentinel permanent) k)))

classify_lem : (y : Result (Unit {0})) → IsClassified y (classify y)
unfolding classify errors_is
classify_lem (ok u) = (refl, λ k. refl)
classify_lem (err e) = elim (Bool-cases (errors_is e unknown_command)) [
  | inl y ↦ rw y (refl, λ k. ground arith)
  | inr n ↦ rw n (refl, λ k. ground arith)
]

module _ (d : Deps) (unframe : Bytes → Result ProtoMessage) where
  -- A record whose envelope cannot be read, or whose payload cannot be decoded, changes nothing, and the
  -- error returned is permanent and is no other error that is tested for, whatever the cause was. Any
  -- other record is given to `Handle`, which alone changes anything; a success stays one, and an error
  -- stays what it is and becomes permanent exactly if it was so or is an unknown command.
  pub commands-IsClassified :
      (r : Record) (s : Session)
      → let (x, t) = commands d unframe r s in
        ((e : Error) × (parse r.headers ≡ err e) × (t ≡ s) × IsPermanentOnly x)
        ⊎ ((incoming : Envelope) × (parse r.headers ≡ ok incoming)
            × (((e : Error) × (unframe r.value ≡ err e) × (t ≡ s) × IsPermanentOnly x)
                ⊎ ((cmd : ProtoMessage) × (unframe r.value ≡ ok cmd)
                    × (t ≡ (handle d incoming cmd s).1)
                    × IsClassified (handle d incoming cmd s).0 x)))
  unfolding commands as_permanent errors_is
  commands-IsClassified r s = elim (Result-cases (parse r.headers)) [
    | inr (e, p) ↦ rw p (inl (e, refl, refl, (refl, λ k. refl)))
    | inl (incoming, p) ↦ elim (Result-cases (unframe r.value)) [
      | inr (e, q) ↦ rw (p, q) (inr (incoming, refl, inl (e, refl, refl, (refl, λ k. refl))))
      | inl (cmd, q) ↦
          rw (p, q)
            (inr (incoming, refl, inr (cmd, refl, refl, classify_lem (handle d incoming cmd s).0)))
    ]
  ]
