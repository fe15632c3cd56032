-- ===== src/Chaincode.antt =====
-- The EmployeeProfileRecord contract
-- (fabric-network/chaincode/employeeprofilerecord/chaincode).
pub mod Asset
pub mod Stub
pub mod Identity
pub mod Record
pub mod Queries
pub mod Ledger
