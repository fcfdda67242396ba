-- ===== src/Sql.antt =====
-- internal/protocol: the scanner of the SQL dialect (parser.go, protocol.go).
pub mod Scan
pub mod Query
