-- ===== src/Base/Defaults.antt =====
-- A value that may be missing.
use mathlib.Core.Option.{Option, none, some}

-- `data.get(key, default)`
unfoldable pub or_default {ℓ} : {A : Type ℓ} → Option A → A → A
or_default none default = default
or_default (some a) default = a
