-- ===== src/Vm.antt =====
-- The virtual machine: compiler/hash-vm.
pub mod Error
pub mod Register
pub mod Stack
pub mod Bytecode
pub mod Alu
pub mod Float
pub mod Interpreter
pub mod Arms
pub mod Step
pub mod Run
