-- ===== src/Core/Identity.antt =====
-- crates/pluribus-core/src/identity.rs: principals. A newtype over `String` is the text.
use pluribus.Base.{String, ◌≡◌, ◌↔◌, Bool, true, false, ◌&&◌, arith, Eq, ◌==◌, ==_iff, string_eq}

pub data PrincipalKind : Type 0 where
  human agent node component external : PrincipalKind

pub record PrincipalRef : Type 0 where
  pub kind : PrincipalKind
  pub id : String

abbrev pub kind_beq : PrincipalKind → PrincipalKind → Bool
kind_beq human human = true
kind_beq agent agent = true
kind_beq node node = true
kind_beq component component = true
kind_beq external external = true
kind_beq _ _ = false

pub kind_beq_iff : (a b : PrincipalKind) → (kind_beq a b ≡ true) ↔ (a ≡ b)
kind_beq_iff a b = ground arith

instance abbrev pub kind_eq : Eq PrincipalKind
kind_eq = record { beq = kind_beq; beq_iff = kind_beq_iff }

abbrev pub principal_beq : PrincipalRef → PrincipalRef → Bool
principal_beq a b = kind_beq a.kind b.kind && (a.id == b.id)

pub principal_beq_iff : (a b : PrincipalRef) → (principal_beq a b ≡ true) ↔ (a ≡ b)
principal_beq_iff a b = ground (arith, ==_iff a.id b.id, kind_beq_iff a.kind b.kind)

instance abbrev pub principal_eq : Eq PrincipalRef
principal_eq = record { beq = principal_beq; beq_iff = principal_beq_iff }
