-- ===== src/Technology/Leakage.antt =====
-- Technology.cpp: how the tabulated currents depend on the temperature.
use nvsim.Shared.{◌≡◌, refl, Bool, true, false, not}
use nvsim.Types.{DeviceRoadmap}
use nvsim.Technology.Entry.{rising, falling}
use nvsim.Technology.Tables.{Node, tables}

-- The tables that hold an off current below the one ten degrees colder.
abbrev pub nmos_dips : Node → DeviceRoadmap → Bool
nmos_dips Node.n90 DeviceRoadmap.lstp = true
nmos_dips Node.n90 DeviceRoadmap.lop = true
nmos_dips _ _ = false

abbrev pub pmos_dips : Node → DeviceRoadmap → Bool
pmos_dips Node.n65 DeviceRoadmap.lop = true
pmos_dips _ _ = false

-- By the exact values of the constants, no table has an on current that rises with the temperature; no
-- table has an NMOS off current that falls with it, but the 90 nm tables of LSTP and LOP, and none a
-- PMOS one, but the 65 nm table of LOP.
pub tables-currents :
    (node : Node) (roadmap : DeviceRoadmap)
    → (falling (tables node roadmap).current_on_nmos ≡ true)
      × (falling (tables node roadmap).current_on_pmos ≡ true)
      × (rising (tables node roadmap).current_off_nmos ≡ not (nmos_dips node roadmap))
      × (rising (tables node roadmap).current_off_pmos ≡ not (pmos_dips node roadmap))
unfolding tables rising falling
tables-currents Node.n200 DeviceRoadmap.hp = (refl, refl, refl, refl)
tables-currents Node.n200 DeviceRoadmap.lstp = (refl, refl, refl, refl)
tables-currents Node.n200 DeviceRoadmap.lop = (refl, refl, refl, refl)
tables-currents Node.n120 DeviceRoadmap.hp = (refl, refl, refl, refl)
tables-currents Node.n120 DeviceRoadmap.lstp = (refl, refl, refl, refl)
tables-currents Node.n120 DeviceRoadmap.lop = (refl, refl, refl, refl)
tables-currents Node.n90 DeviceRoadmap.hp = (refl, refl, refl, refl)
tables-currents Node.n90 DeviceRoadmap.lstp = (refl, refl, refl, refl)
tables-currents Node.n90 DeviceRoadmap.lop = (refl, refl, refl, refl)
tables-currents Node.n65 DeviceRoadmap.hp = (refl, refl, refl, refl)
tables-currents Node.n65 DeviceRoadmap.lstp = (refl, refl, refl, refl)
tables-currents Node.n65 DeviceRoadmap.lop = (refl, refl, refl, refl)
tables-currents Node.n45 DeviceRoadmap.hp = (refl, refl, refl, refl)
tables-currents Node.n45 DeviceRoadmap.lstp = (refl, refl, refl, refl)
tables-currents Node.n45 DeviceRoadmap.lop = (refl, refl, refl, refl)
tables-currents Node.n32 DeviceRoadmap.hp = (refl, refl, refl, refl)
tables-currents Node.n32 DeviceRoadmap.lstp = (refl, refl, refl, refl)
tables-currents Node.n32 DeviceRoadmap.lop = (refl, refl, refl, refl)
tables-currents Node.n22 DeviceRoadmap.hp = (refl, refl, refl, refl)
tables-currents Node.n22 DeviceRoadmap.lstp = (refl, refl, refl, refl)
tables-currents Node.n22 DeviceRoadmap.lop = (refl, refl, refl, refl)
