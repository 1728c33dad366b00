-- ===== src/Base/Fallback.antt =====
-- Options in order of preference.
use mathlib.Core.Path.{◌≡◌, refl}
use mathlib.Core.Option.{Option, none, some}

abbrev pub or_else {ℓ} : {A : Type ℓ} → Option A → Option A → Option A
or_else none later = later
or_else (some a) later = some a

abbrev pub or_default {ℓ} : {A : Type ℓ} → Option A → A → A
or_default none d = d
or_default (some a) d = a

pub or_default-or_else {ℓ} :
    {A : Type ℓ} (a b : Option A) (d : A)
    → or_default (or_else a b) d ≡ or_default a (or_default b d)
or_default-or_else none b d = refl
or_default-or_else (some a) b d = refl
