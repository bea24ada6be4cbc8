-- ===== src/Model.antt =====
-- ocpdiag/core/results/data_model: the structs that callers fill in (`Input`), those that readers
-- of the output get (`Output`), the messages in between (`Proto`), and their conversions.
pub mod Input
pub mod Output
pub mod Proto
pub mod Enums
pub mod Equality
pub mod ToProto
pub mod FromProto
pub mod RoundTrip
