-- ===== src/Store.antt =====
-- store/mongo/datastore_mongo.go: devices and sessions in the database.
pub mod Collection
pub mod Migration
pub mod Uuid
pub mod Devices
pub mod Sessions
