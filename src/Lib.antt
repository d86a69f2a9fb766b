-- ===== src/Lib.antt =====
-- NVSim estimates area, latency and energy of a memory: `main` (main.cpp) reads a parameter file and a
-- memory cell file, then tries every organisation of a bank that BIGFOR (macros.h) enumerates, builds
-- each one (BankWithHtree.cpp, over Mat.cpp, SubArray.cpp and the peripheral circuits), and keeps the
-- best bank for each optimisation target (Result.cpp). If constraints are given it searches a second
-- time, under limits that the first search set.
--
-- The circuits read the technology, the cell, the parameters and the local wire from global objects
-- (global.h), which main sets once; the models take them as one record, Globals. An `exit`, and
-- behaviour that C++ leaves undefined, such as reading an array out of its bounds, is `none`; a message
-- is left out. An array of figures is a function of its index.
--
-- Which file models what:
-- - Types: the enumerations of typedef.h.
-- - Double: the operations on `double` as an interface; Double.Tenths is a value of it for the tests.
--   Theorems that need laws of the arithmetic name them: IsStrictOrder (`<`), and IsExact (quotients,
--   logarithms and powers of powers of two below 2 ^ 53).
-- - Config: the loop that InputParameter::ReadInputParameterFromFile and MemCell::ReadCellFromFile
--   share, as a table of keys, with the part of `sscanf` and `strncmp` that they use. A `%lf` is read
--   by an argument, `strtod`. Reading a buffer that no `sscanf` has filled is undefined, and `none`.
-- - Input: InputParameter.h and InputParameter.cpp. Input.Design, Input.Searching and Input.Bounding
--   hold the keys in the source's order; a pair `minX`, `maxX` is one Range.
-- - Cell: MemCell.h and MemCell.cpp. Cell.Keys holds the keys, Cell.Energy CalculateWriteEnergy,
--   CalculateReadPower and GetMemristance, Cell.Scaling CellScaling. The supply voltage `tech->vdd`
--   is an argument there.
-- - Technology: Technology.h and Technology.cpp. Technology.Tables holds the constants of the seven
--   nodes and three roadmaps as the source writes them, Technology.State what Initialize makes of them
--   and InterpolateWith, Technology.Process the choice between two nodes in main.cpp.
-- - Formula: formula.cpp: the area, capacitance and leakage of gates, resistances and wires.
-- - Wire: Wire.h and Wire.cpp. Wire.Fine, Wire.Middle and Wire.Coarse hold the constants, Wire.Setup
--   Initialize, Wire.Repeater the search for repeaters, Wire.Delay the figures of a wire that is not
--   low-swing. Both loops of findPenalizedRepeater run on fuel; Wire.Penalty shows how much is enough.
-- - FunctionUnit, Circuit: FunctionUnit.h, Mux.cpp, SenseAmp.cpp, RowDecoder.cpp, Precharger.cpp and
--   BasicDecoder.cpp, each with its Initialize, CalculateArea, CalculateRC, CalculateLatency and
--   CalculatePower.
-- - SubArray: SubArray::Initialize, CalculateArea, CalculateLatency (SubArray.Bitline, SubArray.Latency)
--   and CalculatePower (SubArray.CellPower, SubArray.Power). SubArray.Legality tests the configuration,
--   SubArray.Access derives the lines and the access to the cells, SubArray.Setup builds the circuits.
--   How a step of Initialize ends is a value, Check.
-- - Exploration: BIGFOR, REDUCE_SEARCH_SIZE and RESTORE_SEARCH_SIZE of macros.h. A loop that doubles
--   its variable runs on fuel, one more than its bound, which is enough from any positive start; a
--   loop that does not end, or whose variable leaves the `int`s, is `none`.
-- - Result: Result.cpp's constructor, reset and compareAndUpdate, UPDATE_BEST_DATA and APPLY_LIMIT of
--   macros.h; Result.Constraint: the second search of main.cpp. The assignments of banks and wires take
--   over some members and leave others; the model has the estimates of a bank, and the other members in
--   these two parts.
-- - Mat: Mat::Initialize up to the call of the subarray's.
-- - Bank: BankWithHtree::Initialize. Bank.Htree.Defs splits the bits level by level, each loop
--   counted by the levels it goes through, Bank.Htree.Recorded says what a level is to hold;
--   Bank.Request the signals and the recalculated multiplexers. Bank.Plain:
--   BankWithoutHtree::Initialize up to the call of the mat's.
-- - Predecode: the counts of decoders and the stages that PredecodeBlock::Initialize chooses.
-- - Driver: OutputDriver.h and OutputDriver.cpp: the numbers of inverters that Initialize chooses from
--   the logical effort, in Driver.Widths their widths, in Driver.Figures the other operations.
-- - Checks: applyConstraint of main.cpp, and isPow2 of formula.cpp over 32 bits.
-- - Shared: names of the libraries, Boolean tests, lists, powers of two and integers over the native
--   numbers. Tests: the theorems at concrete inputs.
--
-- Not modelled: area, latency and power of mats, predecoders and banks, global sense amplifiers,
-- low-swing wires, the comparator, the loops over wires of macros.h, the pruning of results, the
-- tag array, and all printing. Counts are natural numbers, so a negative number in a file is not
-- read. Warnings are left out. Opening a file is left out: a reader takes the lines that `fscanf`
-- gives.
pub mod Shared
pub mod Types
pub mod Technology
pub mod Formula
pub mod Wire
pub mod Globals
pub mod FunctionUnit
pub mod Double
pub mod Exploration
pub mod Config
pub mod Input
pub mod Cell
pub mod Result
pub mod Mat
pub mod Predecode
pub mod Driver
pub mod Circuit
pub mod SubArray
pub mod Checks
pub mod Bank
pub mod Tests
