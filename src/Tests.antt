-- ===== src/Tests.antt =====
-- The theorems at concrete inputs, and runs of the definitions.
mod OfCore
mod OfParser
mod OfSerializer
mod OfStore
mod OfSession
mod OfFile
mod OfDictionary
mod OfAudit
mod OfManager
mod OfErrors
