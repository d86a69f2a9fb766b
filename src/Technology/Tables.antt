-- ===== src/Technology/Tables.antt =====
-- Technology.cpp: the choice of the constants in Initialize, by the size in nm and the road map.
mod N200
mod N120
mod N90
mod N65
mod N45
mod N32
mod N22
use nvsim.Shared.{ℕ, leb, Option, none, some, if◌then◌else◌}
use nvsim.Types.{DeviceRoadmap}
use nvsim.Technology.Entry.{Tables}
use nvsim.Technology.Tables.N200.{hp_200, lstp_200, lop_200}
use nvsim.Technology.Tables.N120.{hp_120, lstp_120, lop_120}
use nvsim.Technology.Tables.N90.{hp_90, lstp_90, lop_90}
use nvsim.Technology.Tables.N65.{hp_65, lstp_65, lop_65}
use nvsim.Technology.Tables.N45.{hp_45, lstp_45, lop_45}
use nvsim.Technology.Tables.N32.{hp_32, lstp_32, lop_32}
use nvsim.Technology.Tables.N22.{hp_22, lstp_22, lop_22}

-- A branch of Initialize.
pub data Node : Type 0 where
  n200 n120 n90 n65 n45 n32 n22 : Node

-- The size that the branch starts from.
abbrev pub nanometres : Node → ℕ
nanometres Node.n200 = 200
nanometres Node.n120 = 120
nanometres Node.n90 = 90
nanometres Node.n65 = 65
nanometres Node.n45 = 45
nanometres Node.n32 = 32
nanometres Node.n22 = 22

-- Below 22 nm no branch is taken.
unfoldable pub node_of : ℕ → Option Node
node_of size =
    if leb 200 size
    then some Node.n200
    else if leb 120 size
    then some Node.n120
    else if leb 90 size
    then some Node.n90
    else if leb 65 size
    then some Node.n65
    else if leb 45 size
    then some Node.n45
    else if leb 32 size
    then some Node.n32
    else if leb 22 size
    then some Node.n22
    else none

unfoldable pub tables : Node → DeviceRoadmap → Tables
tables Node.n200 DeviceRoadmap.hp = hp_200
tables Node.n200 DeviceRoadmap.lstp = lstp_200
tables Node.n200 DeviceRoadmap.lop = lop_200
tables Node.n120 DeviceRoadmap.hp = hp_120
tables Node.n120 DeviceRoadmap.lstp = lstp_120
tables Node.n120 DeviceRoadmap.lop = lop_120
tables Node.n90 DeviceRoadmap.hp = hp_90
tables Node.n90 DeviceRoadmap.lstp = lstp_90
tables Node.n90 DeviceRoadmap.lop = lop_90
tables Node.n65 DeviceRoadmap.hp = hp_65
tables Node.n65 DeviceRoadmap.lstp = lstp_65
tables Node.n65 DeviceRoadmap.lop = lop_65
tables Node.n45 DeviceRoadmap.hp = hp_45
tables Node.n45 DeviceRoadmap.lstp = lstp_45
tables Node.n45 DeviceRoadmap.lop = lop_45
tables Node.n32 DeviceRoadmap.hp = hp_32
tables Node.n32 DeviceRoadmap.lstp = lstp_32
tables Node.n32 DeviceRoadmap.lop = lop_32
tables Node.n22 DeviceRoadmap.hp = hp_22
tables Node.n22 DeviceRoadmap.lstp = lstp_22
tables Node.n22 DeviceRoadmap.lop = lop_22
