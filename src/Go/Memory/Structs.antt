-- ===== src/Go/Memory/Structs.antt =====
-- Models of structs, by their parts.
use talisman.Go.Memory.Models.{Model}

-- Two parts.
abbrev pub pair_model :
    {Cell A B V W : Type 0} → Model Cell A V → Model Cell B W → Model Cell (A × B) (V × W)
pair_model D F = record {
  Rep = λ h lo a v. D.Rep h lo a.0 v.0 × F.Rep h lo a.1 v.1;
  frame =
      λ h h' lo a v same r. (D.frame h h' lo a.0 v.0 same r.0, F.frame h h' lo a.1 v.1 same r.1);
  weaken =
      λ h lo lo' a v le r. (D.weaken h lo lo' a.0 v.0 le r.0, F.weaken h lo lo' a.1 v.1 le r.1);
}

-- A struct and its value, by what they are made of.
abbrev pub via_model : {Cell S T A V : Type 0} → (S → A) → (T → V) → Model Cell A V → Model Cell S T
via_model f g D = record {
  Rep = λ h lo s t. D.Rep h lo (f s) (g t);
  frame = λ h h' lo s t. D.frame h h' lo (f s) (g t);
  weaken = λ h lo lo' s t. D.weaken h lo lo' (f s) (g t);
}
