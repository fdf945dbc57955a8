-- ===== src/Exec/Calm.antt =====
-- The world in which every call of the outside works.
use digital_cip.Prelude.{[]}
use digital_cip.World.{State, World}

abbrev pub calm : State → World
calm st = record { state = st; fates = [] }
