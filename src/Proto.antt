-- ===== src/Proto.antt =====
-- linux/src/helper_proto.h (windows/src has the same constants, and those of file chunks): the
-- values of the schema. An enumeration is an `std::int32_t`, given by its bit pattern; a cast from
-- the wire can give any pattern, so the types are numbers and not enumerations of the model.
pub mod MessageType
pub mod ContentType
pub mod Field
